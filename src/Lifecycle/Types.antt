-- ===== src/Lifecycle/Types.antt =====
-- The two types of resources that the start of the module registers: php8/php_eio.c,
-- `PHP_MINIT_FUNCTION`, `le_eio_grp` and `le_eio_req`. How the engine numbers types is a parameter.
use pecl_eio.Base.{
  ℕ, ◌≡◌, ◌≢◌, true, Option, none, some, List, [], ◌∷◌, ◌==◌, if◌then◌else◌, arith, is_some,
}
use pecl_eio.Handles.{Store, handle_dtor}

-- The names of the types, PHP_EIO_GRP_DESCRIPTOR_NAME and PHP_EIO_REQ_DESCRIPTOR_NAME.
pub data TypeName : Type 0 where
  group_descriptor request_descriptor : TypeName

abbrev pub Destructor : Type 0
Destructor = ℕ → Store → Option Store

-- A type of resources, with the destructor of those that are not persistent.
pub record ListType : Type 0 where
  pub id : ℕ
  pub name : TypeName
  pub dtor : Destructor

-- What the engine has of the type `id`.
abbrev pub find_type : ℕ → List ListType → Option ListType
find_type id [] = none
find_type id (t ∷ ts) = let rest = find_type id ts in if t.id == id then some t else rest

-- `le_eio_grp`, `le_eio_req`, and the types of the engine.
pub record ResourceTypes : Type 0 where
  pub le_eio_grp : ℕ
  pub le_eio_req : ℕ
  pub types : List ListType

-- `zend_register_list_destructors_ex(dtor, NULL, name, module_number)`
abbrev pub register_type :
    (List ListType → ℕ) → Destructor → TypeName → List ListType → ℕ × List ListType
register_type new_type dtor name ts =
    let id = new_type ts in
    let t : ListType = record { id = id; name = name; dtor = dtor } in (id, t ∷ ts)

unfoldable pub register_types : (List ListType → ℕ) → List ListType → ResourceTypes
register_types new_type ts =
    let (grp, ts) = register_type new_type handle_dtor group_descriptor ts in
    let (req, ts) = register_type new_type handle_dtor request_descriptor ts in
    record { le_eio_grp = grp; le_eio_req = req; types = ts }

-- The engine gives a new type a number that no type has.
pub record Numbers (new_type : List ListType → ℕ) : Type 0 where
  pub unused : (ts : List ListType) → find_type (new_type ts) ts ≡ none

-- The type `id` is there, under its name, and its resources are destroyed by `php_eio_handle_dtor`.
pub record Known (id : ℕ) (name : TypeName) (ts : List ListType) : Type 0 where
  pub is : find_type id ts ≡ some (record { id = id; name = name; dtor = handle_dtor })

-- The two types are different and known, and the types from before are as they were.
pub record Registered (ts : List ListType) (t : ResourceTypes) : Type 0 where
  pub differ : t.le_eio_grp ≢ t.le_eio_req
  pub group : Known t.le_eio_grp group_descriptor t.types
  pub request : Known t.le_eio_req request_descriptor t.types
  pub others : (id : ℕ) → is_some (find_type id ts) ≡ true → find_type id t.types ≡ find_type id ts

pub register_types-Registered :
    (new_type : List ListType → ℕ)
    → Numbers new_type
    → (ts : List ListType) → Registered ts (register_types new_type ts)
unfolding register_types
register_types-Registered new_type numbers ts =
    let (grp, ts1) = register_type new_type handle_dtor group_descriptor ts in
    let first = numbers.unused ts in
    let second = numbers.unused ts1 in
    record {
      differ = λ e. ground (arith, first, second, e);
      group = record { is = ground (arith, first, second) };
      request = record { is = ground (arith, first, second) };
      others = λ id e. ground (arith, first, second);
    }
