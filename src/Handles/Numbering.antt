-- ===== src/Handles/Numbering.antt =====
-- Resource ids are given out in ascending order, so that no id stands twice in the list.
use pecl_eio.Base.{ℕ, ◌+◌, ◌<◌, ◌≡◌, List, [], ◌∷◌, arith}
use pecl_eio.Base.Returns.{result}
use pecl_eio.Request.{Libeio, Frees}
use pecl_eio.Handles.{Store}
use pecl_eio.Handles.Resources.{Resource, clear}
use pecl_eio.Handles.Destroying.{call_destroy-Destroyed}
use pecl_eio.Handles.Registering.{register_resource-Registered}
use pecl_eio.Handles.Releasing.{handle_dtor-Released}
use pecl_eio.Handles.Resetting.{handles_reset-Reset}
use pecl_eio.Handles.Steps.{
  Step, create, finish, register, drop, fork, Reach, here, next, IsSafe, Reach-IsSafe,
}

-- The ids fall, from below `n`.
abbrev pub Descending : ℕ → List (ℕ × Resource) → Type 0
Descending n [] = Unit {0}
Descending n ((k, res) ∷ rs) = (k < n) × Descending k rs

abbrev pub IsNumbered : Store → Type 0
IsNumbered s = Descending s.next_id s.resources

pub clear-Descending :
    (id n : ℕ) (rs : List (ℕ × Resource)) → Descending n rs → Descending n (clear id rs)
unfolding clear
clear-Descending id n [] d = tt
clear-Descending id n ((k, res) ∷ rs) d = ground (arith, clear-Descending id k rs)

moved :
    (n n' : ℕ) (rs rs' : List (ℕ × Resource))
    → n' ≡ n
    → rs' ≡ rs
    → Descending n rs
    → Descending n' rs'
moved n n' rs rs' e f d = rw (e, f) d

module _ (lib : Libeio) (f : Frees lib) {s s' : Store} where
  Step-IsNumbered : Step lib s s' → IsSafe s → IsNumbered s → IsNumbered s'
  Step-IsNumbered (create r q free h n e) v d = rw e d
  Step-IsNumbered (finish r q live e) v d =
      let g = result (call_destroy-Destroyed lib f s v.inv v.few r q live) e in
      moved _ _ _ _ g.same_next g.same_resources d
  Step-IsNumbered (register r addr id kind q ready live free room e) v d =
      let g = result (register_resource-Registered s v.inv v.few r kind addr q ready live free) e in
      moved (s.next_id + 1) _ ((s.next_id, g.res) ∷ s.resources) _ g.next g.resources
        (omega arith, d)
  Step-IsNumbered (drop id e) v d =
      let g = result (handle_dtor-Released s v.inv v.few id) e in
      moved _ _ _ _ g.same_next g.resources (clear-Descending id s.next_id s.resources d)
  Step-IsNumbered (fork ready e) v d =
      let g = result (handles_reset-Reset s v.inv v.few ready) e in
      moved _ _ _ _ g.same_next g.same_resources d

module _ (lib : Libeio) (f : Frees lib) {s : Store} (v : IsSafe s) where
  pub Reach-IsNumbered : {t : Store} → IsNumbered s → Reach lib s t → IsNumbered t
  Reach-IsNumbered d here = d
  Reach-IsNumbered d (next r st) =
      Step-IsNumbered lib f st (Reach-IsSafe lib f v r) (Reach-IsNumbered d r)
