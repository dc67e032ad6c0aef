-- ===== src/Go/Exec/Within.antt =====
-- Actions that move the state along a preorder only, however they end.
use mpc_custody.Prelude.{Bool, true, false, if◌then◌else◌}
use mpc_custody.Errors.{Error}
use mpc_custody.Go.Exec.{
  Result, ok, err, Exec, pure, lift, raise_if, ignore, on_error, on_error_result, map_error,
  continue, ◌>>=◌,
}

pub record Preorder (W : Type 0) : Type 1 where
  pub rel : W → W → Type 0
  pub rel_refl : (w : W) → rel w w
  pub rel_trans : (u v w : W) → rel u v → rel v w → rel u w

pub record Within {W A : Type 0} (o : Preorder W) (m : Exec W A) : Type 0 where
  pub at : (w : W) → o.rel w (m w).1

module _ {W A : Type 0} {o : Preorder W} where
  pub Within-pure : (a : A) → Within o (pure a)
  Within-pure a = record { at = o.rel_refl }

  pub Within-lift : (r : Result A) → Within o (lift r)
  Within-lift r = record { at = o.rel_refl }

  pub Within-if :
      (b : Bool) {m n : Exec W A} → Within o m → Within o n → Within o (if b then m else n)
  Within-if true hm hn = hm
  Within-if false hm hn = hn

  pub Within-ignore : {m : Exec W A} → Within o m → Within o (ignore m)
  unfolding ignore
  Within-ignore h = record { at = h.at }

  pub Within-map_error : (f : Error → Error) {m : Exec W A} → Within o m → Within o (map_error f m)
  unfolding map_error
  Within-map_error f h = record { at = h.at }

  on_error_result-rel :
      (h : Error → Exec W Unit) (r : Result A) (v w : W)
      → o.rel v w
      → ((e : Error) → Within o (h e))
      → o.rel v (on_error_result h r w).1
  on_error_result-rel h (ok a) v w p k = p
  on_error_result-rel h (err e) v w p k = o.rel_trans v w (h e w).1 p ((k e).at w)

  pub Within-on_error :
      {m : Exec W A} {h : Error → Exec W Unit}
      → Within o m
      → ((e : Error) → Within o (h e))
      → Within o (on_error m h)
  unfolding on_error
  Within-on_error {m = m} {h = h} hm hh = record {
    at = λ w. on_error_result-rel h (m w).0 w (m w).1 (hm.at w) hh;
  }

module _ {W : Type 0} {o : Preorder W} where
  pub Within-raise_if : (b : Bool) (e : Error) → Within o (raise_if b e)
  Within-raise_if b e = record { at = o.rel_refl }

module _ {W A B : Type 0} {o : Preorder W} where
  continue-rel :
      (f : A → Exec W B) (r : Result A) (v w : W)
      → o.rel v w
      → ((a : A) → Within o (f a))
      → o.rel v (continue r f w).1
  continue-rel f (ok a) v w p k = o.rel_trans v w (f a w).1 p ((k a).at w)
  continue-rel f (err e) v w p k = p

  pub Within-bind :
      (m : Exec W A) (f : A → Exec W B)
      → Within o m
      → ((a : A) → Within o (f a))
      → Within o (m >>= f)
  unfolding ◌>>=◌
  Within-bind m f hm hf = record { at = λ w. continue-rel f (m w).0 w (m w).1 (hm.at w) hf }

pub ruleset within_rules = (
  Within-pure, Within-lift, Within-if, Within-ignore, Within-map_error, Within-on_error,
  Within-raise_if, Within-bind,
)
