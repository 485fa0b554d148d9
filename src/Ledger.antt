-- ===== src/Ledger.antt =====
-- Who holds what: the callback objects that the requests of libeio carry, as a list of entries, and
-- what PHP code holds beside them. `php_eio_new_eio_cb` makes an object for a request,
-- and `php_eio_res_cb` and `eio_cancel` of php8/php_eio.c free it.
pub mod Entries
pub mod Requests
pub mod Calls
pub mod Control
pub mod Calling
pub mod Finishing
pub mod Groups
pub mod Steps
pub mod Leaks
pub mod Callbacks
pub mod Draining
pub mod Refused
mod Tests
mod CallbacksTests
mod DrainingTests
mod RefusedTests
use pecl_eio.Base.{
  ℕ, ◌+◌, ◌≡◌, ◌≢◌, Bool, true, false, Option, none, some, List, [], ◌∷◌, ◌==◌, if◌then◌else◌,
  is_some,
}
use pecl_eio.Base.Returns.{Returns}
use pecl_eio.Request.{EioReq, Reqs, is_plain}
use pecl_eio.Zend.{EioCb, Block, cb, Php}
use pecl_eio.Handles.{Store}
use pecl_eio.Handles.Inv.{Inv, Few}
use pecl_eio.World.{World, Env, Call, Function}
use pecl_eio.World.Submission.{StoreReady}
use pecl_eio.Callbacks.Balance.{refs_in}
use pecl_eio.Results.{data_param}
use pecl_eio.Results.Release.{cb_refs}

-- The references and the blocks that PHP code holds itself.
pub record Held : Type 0 where
  pub objs : ℕ → ℕ
  pub blocks : ℕ → Option Block

-- The request at `req` carries the object `obj`, which is at the address `at`.
pub record Entry : Type 0 where
  pub req : ℕ
  pub at : ℕ
  pub obj : EioCb

abbrev pub Ledger : Type 0
Ledger = List Entry

-- How many references to the object `i` the entries hold.
abbrev pub held : ℕ → Ledger → ℕ
held i [] = 0
held i (e ∷ l) = cb_refs i e.obj + held i l

abbrev pub obj_at : ℕ → Ledger → Option EioCb
obj_at k [] = none
obj_at k (e ∷ l) = let rest = obj_at k l in if e.at == k then some e.obj else rest

-- The address of the object that the request `r` carries.
abbrev pub addr_of : ℕ → Ledger → Option ℕ
addr_of r [] = none
addr_of r (e ∷ l) = let rest = addr_of r l in if e.req == r then some e.at else rest

abbrev pub remove : ℕ → Ledger → Ledger
remove r [] = []
remove r (e ∷ l) = let rest = remove r l in if e.req == r then l else e ∷ rest

-- No request and no address has two entries.
abbrev pub Distinct : Ledger → Type 0
Distinct [] = Unit
Distinct (e ∷ l) = (addr_of e.req l ≡ none) × (obj_at e.at l ≡ none) × Distinct l

-- What a block of PHP's heap holds, an object of the ledger or a block of PHP code.
abbrev pub block_in : Option EioCb → Option Block → Option Block
block_in none o = o
block_in (some c) o = some (cb c)

abbrev pub memory : Php → Held
memory p = record { objs = p.objs; blocks = p.blocks }

-- Every reference and every block is held exactly by PHP code or by one entry.
pub record Covers (u : Held) (l : Ledger) (p : Held) : Type 0 where
  pub objs : (i : ℕ) → p.objs i ≡ u.objs i + held i l
  pub blocks : (k : ℕ) → p.blocks k ≡ block_in (obj_at k l) (u.blocks k)
  pub distinct : Distinct l
  pub unused : (k : ℕ) → is_some (obj_at k l) ≡ true → u.blocks k ≡ none

-- `req->data` of a live request.
abbrev pub data_in : Option EioReq → Option ℕ
data_in none = none
data_in (some q) = q.cb_data

abbrev pub plain_in : Option EioReq → Bool
plain_in none = true
plain_in (some q) = is_plain q.type

-- The requests carry exactly the objects of the ledger.
pub record Carries (l : Ledger) (m : Reqs) : Type 0 where
  pub carried : (r : ℕ) → data_in (m r) ≡ addr_of r l
  pub plain : (r : ℕ) → plain_in (m r) ≡ true

pub record Ledgered (u : Held) (l : Ledger) (s : Store) (p : Held) : Type 0 where
  pub inv : Inv s
  pub few : Few s
  pub ready : s.ready ≡ true
  pub covers : Covers u l p
  pub carries : Carries l s.reqs

-- The entries stand in the ledger.
abbrev pub Has : List Entry → Ledger → Type 0
Has [] l = Unit
Has (e ∷ g) l = (addr_of e.req l ≡ some e.at) × (obj_at e.at l ≡ some e.obj) × Has g l

-- The request `r` is of none of the entries.
abbrev pub Apart : List Entry → ℕ → Type 0
Apart [] r = Unit
Apart (e ∷ g) r = (e.req ≢ r) × Apart g r

-- The references of the parameter `$data` of a callback.
abbrev pub data_refs : EioCb → ℕ → ℕ
data_refs c i = refs_in i (data_param c.arg)

-- The same memory, with `n i` more references to each object `i`.
abbrev pub more : (ℕ → ℕ) → Held → Held
more n u = record { objs = λ i. u.objs i + n i; blocks = u.blocks }

-- The callbacks of the entries are being called: each has its parameter `$data`.
abbrev pub calling : List Entry → Held → Held
calling [] u = u
calling (e ∷ g) u = more (data_refs e.obj) (calling g u)

-- What PHP code holds, where the callbacks of `g` are being called, and a ledger with their entries
-- accounts for the rest.
abbrev pub Owned : List Entry → Held → World → Type 0
Owned g u w = (l : Ledger) × Has g l × Ledgered (calling g u) l w.store (memory w.php)

-- The extension may be called, and libeio has memory for a request.
pub record Room (env : Env) (s : Store) : Type 0 where
  pub ready : StoreReady env s
  pub makes : (call : Call) → is_some (env.new_request call s) ≡ true

-- A function of the extension after which a ledger still accounts for what PHP code does not hold.
abbrev pub Keeps : Env → Function → Type 0
Keeps env f =
    (w : World)
    → Room env w.store
    → (g : List Entry) (u : Held) → Owned g u w
    → Returns (λ out. Owned g u out.1) (f w)
