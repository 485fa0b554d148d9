-- ===== src/Custom/Release.antt =====
-- What is given back: references, and blocks of memory.
use pecl_eio.Base.{
  ℕ, ◌+◌, ◌≤◌, ◌≡◌, refl, Bool, false, ◌||◌, Option, none, some, arith, ◌==◌, if◌then◌else◌,
}
use pecl_eio.Base.Returns
use pecl_eio.Base.Returns.{Returns, returns}
use pecl_eio.Zend.{Zval, EioCbCustom, cb_custom, Block, Php, efree}
use pecl_eio.Callbacks.{free_eio_cb_custom}
use pecl_eio.Callbacks.Balance.{
  refs_in, func_refs, Gives, release_zval-Gives, func_info_free-Gives, ptr_dtor-Gives,
}
use pecl_eio.Custom.{result_param, release_result}

-- `p'` has `n i` references less to each object `i` than `p`, and no block where `gone` says so.
pub record Releases (n : ℕ → ℕ) (gone : ℕ → Bool) (p p' : Php) : Type 0 where
  pub objs : (i : ℕ) → p.objs i ≡ p'.objs i + n i
  pub blocks : (k : ℕ) → p'.blocks k ≡ (if gone k then none else p.blocks k)
  pub errors : p'.errors ≡ p.errors
  pub thrown : p'.thrown ≡ p.thrown
  pub warnings : p'.warnings ≡ p.warnings

pub Releases-trans :
    {m n : ℕ → ℕ} {f g : ℕ → Bool} {p q r : Php}
    → Releases m f p q
    → Releases n g q r
    → Releases (λ i. m i + n i) (λ k. f k || g k) p r
Releases-trans x y = record {
  objs = λ i. omega (arith, x.objs i, y.objs i);
  blocks = λ k. ground (arith, x.blocks k, y.blocks k);
  errors = ground (arith, x.errors, y.errors);
  thrown = ground (arith, x.thrown, y.thrown);
  warnings = ground (arith, x.warnings, y.warnings);
}

abbrev pub nowhere : ℕ → Bool
nowhere k = false

pub Gives-Releases : {n : ℕ → ℕ} {p q : Php} → Gives n p q → Releases n nowhere p q
Gives-Releases g = record {
  objs = λ i. omega (arith, g.refs i);
  blocks = λ k. ground (arith, g.same_blocks k);
  errors = ground (arith, g.same_errors);
  thrown = ground (arith, g.same_thrown);
  warnings = ground (arith, g.same_warnings);
}

efree-Releases :
    (a : ℕ) (x : Block) (p : Php)
    → p.blocks a ≡ some x
    → Returns (Releases (λ i. 0) (λ k. a == k) p) (efree a p)
unfolding efree
efree-Releases a x p is = rw is (
    returns (record {
      objs = λ i. omega arith;
      blocks = λ k. refl;
      errors = refl;
      thrown = refl;
      warnings = refl;
    }))

-- The same with other words for the references and the blocks.
pub Releases-same :
    {m n : ℕ → ℕ} {f g : ℕ → Bool} {p q : Php}
    → ((i : ℕ) → n i ≡ m i)
    → ((k : ℕ) → g k ≡ f k)
    → Releases m f p q
    → Releases n g p q
Releases-same e h x = record {
  objs = λ i. omega (arith, x.objs i, e i);
  blocks = λ k. ground (arith, x.blocks k, h k);
  errors = x.errors;
  thrown = x.thrown;
  warnings = x.warnings;
}

-- How many references a callback object of a custom request holds.
abbrev pub custom_refs : ℕ → EioCbCustom → ℕ
custom_refs i c = func_refs i c.func_exec + func_refs i c.func + refs_in i c.arg

pub free_eio_cb_custom-Releases :
    (a : ℕ) (c : EioCbCustom) (p : Php)
    → p.blocks a ≡ some (cb_custom c)
    → ((i : ℕ) → custom_refs i c ≤ p.objs i)
    → Returns (Releases (λ i. custom_refs i c) (λ k. a == k) p) (free_eio_cb_custom (some a) p)
unfolding free_eio_cb_custom
free_eio_cb_custom-Releases a c p is counted = rw is (
    Returns.bind (release_zval-Gives c.arg p (λ i. omega (arith, counted i))) λ q1 g1.
      Returns.bind (func_info_free-Gives c.func q1 (λ i. omega (arith, counted i, g1.refs i)))
        λ q2 g2.
          Returns.bind
            (func_info_free-Gives c.func_exec q2
              (λ i. omega (arith, counted i, g1.refs i, g2.refs i)))
            λ q3 g3.
              let g =
                Releases-trans (Releases-trans (Gives-Releases g1) (Gives-Releases g2))
                  (Gives-Releases g3) in
              Returns.mono (efree-Releases a (cb_custom c) q3 (ground (arith, g.blocks a)))
                λ r e. Releases-same (λ i. omega arith) (λ k. refl) (Releases-trans g e))

abbrev pub at_buf : Option ℕ → ℕ → Bool
at_buf none k = false
at_buf (some b) k = b == k

-- The value that a request keeps, if it keeps one, is released with its block.
pub release_result-Releases :
    (o : Option ℕ) (z : Zval) (p : Php)
    → result_param o p ≡ some z
    → ((i : ℕ) → refs_in i z ≤ p.objs i)
    → Returns (Releases (λ i. refs_in i z) (at_buf o) p) (release_result o p)
unfolding release_result result_param
release_result-Releases none z p is counted = returns (record {
  objs = λ i. ground arith;
  blocks = λ k. refl;
  errors = refl;
  thrown = refl;
  warnings = refl;
})
release_result-Releases (some b) z p is counted = by_block (p.blocks b) refl
  where
    by_block :
        (x : Option Block)
        → p.blocks b ≡ x
        → Returns (Releases (λ i. refs_in i z) (at_buf (some b)) p) (release_result (some b) p)
    by_block none e = ground arith
    by_block (some x) e = rw is (
        Returns.bind (ptr_dtor-Gives z p counted) λ q g.
          Returns.mono (efree-Releases b x q (ground (arith, g.same_blocks b))) λ r h.
            Releases-same (λ i. omega arith) (λ k. refl) (Releases-trans (Gives-Releases g) h))
