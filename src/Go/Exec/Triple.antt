-- ===== src/Go/Exec/Triple.antt =====
-- Triples about `Exec`: from a state with `P`, an error leaves a state with `I`, and a value `a` a
-- state with `Q a`.
use mpc_custody.Prelude.{◌≡◌, refl, sym, subst, Bool, true, false, if◌then◌else◌}
use mpc_custody.Errors.{Error}
use mpc_custody.Go.Exec.{
  Result, ok, err, Exec, pure, raise, raise_if, ignore, on_error, on_error_result, continue, ◌>>=◌,
  ◌>>◌, lift, map_error, map_error,
}

abbrev pub Post : {W A : Type 0} → (W → Type 0) → (A → W → Type 0) → Result A × W → Type 0
Post I Q (ok a, w) = Q a w
Post I Q (err e, w) = I w

pub record Triple {W A : Type 0} (I P : W → Type 0) (m : Exec W A) (Q : A → W → Type 0)
    : Type 0 where
  pub at : (w : W) → P w → Post I Q (m w)

module _ {W A : Type 0} {I P : W → Type 0} where
  pub Triple-pure : (a : A) (Q : A → W → Type 0) → ((w : W) → P w → Q a w) → Triple I P (pure a) Q
  Triple-pure a Q h = record { at = h }

  pub Triple-raise :
      (e : Error) (Q : A → W → Type 0) → ((w : W) → P w → I w) → Triple I P (raise e) Q
  Triple-raise e Q h = record { at = h }

  pub Triple-if :
      (b : Bool) {m n : Exec W A} {Q : A → W → Type 0}
      → (b ≡ true → Triple I P m Q)
      → (b ≡ false → Triple I P n Q)
      → Triple I P (if b then m else n) Q
  Triple-if true hm hn = hm refl
  Triple-if false hm hn = hn refl

module _ {W A : Type 0} {I P : W → Type 0} {Q : A → W → Type 0} {m : Exec W A} where
  pub Triple-strengthen :
      {P' : W → Type 0} → ((w : W) → P w → P' w) → Triple I P' m Q → Triple I P m Q
  Triple-strengthen h t = record { at = λ w p. t.at w (h w p) }

module _ {W : Type 0} {I P : W → Type 0} where
  pub Triple-raise_if :
      (b : Bool) (e : Error)
      → ((w : W) → P w → I w)
      → Triple I P (raise_if b e) (λ _ w. P w × (b ≡ false))
  Triple-raise_if true e h = record { at = h }
  Triple-raise_if false e h = record { at = λ w p. (p, refl) }

module _ {W A B : Type 0} {I : W → Type 0} where
  Post-continue :
      {R : A → W → Type 0} {Q : B → W → Type 0} (f : A → Exec W B) (r : Result A) (w : W)
      → Post I R (r, w)
      → ((a : A) → Triple I (R a) (f a) Q)
      → Post I Q (continue r f w)
  Post-continue f (ok a) w p h = (h a).at w p
  Post-continue f (err e) w p h = p

  pub Triple-bind :
      {P : W → Type 0} {R : A → W → Type 0} {Q : B → W → Type 0} {m : Exec W A} {f : A → Exec W B}
      → Triple I P m R
      → ((a : A) → Triple I (R a) (f a) Q)
      → Triple I P (m >>= f) Q
  unfolding ◌>>=◌
  Triple-bind {R = R} {Q = Q} {m = m} {f = f} hm hf = record {
    at = λ w p. Post-continue {R = R} {Q = Q} f (m w).0 (m w).1 (hm.at w p) hf;
  }

-- A postcondition that asks for no more than `I`, however the action ends.
pub Post-error :
    {W A : Type 0} (I : W → Type 0) (r : Result A) (w : W) → Post I (λ _. I) (r, w) → I w
Post-error I (ok a) w p = p
Post-error I (err e) w p = p

module _ {W A : Type 0} {I P : W → Type 0} {m : Exec W A} where
  -- Where a value leaves `I` too, so does the action whose error is dropped.
  pub Triple-ignore : Triple I P m (λ _. I) → Triple I P (ignore m) (λ _. I)
  unfolding ignore
  Triple-ignore t = record { at = λ w p. Post-error I (m w).0 (m w).1 (t.at w p) }

Post-on_error :
    {W A : Type 0} {I R : W → Type 0} (Q : A → W → Type 0) (h : Error → Exec W Unit) (r : Result A)
    (w : W)
    → Post R Q (r, w)
    → ((e : Error) → Triple I R (h e) (λ _. I))
    → Post I Q (on_error_result h r w)
Post-on_error Q h (ok a) w p k = p
Post-on_error {I = I} Q h (err e) w p k = Post-error I (h e w).0 (h e w).1 ((k e).at w p)

module _ {W A : Type 0} {I P R : W → Type 0} {Q : A → W → Type 0} where
  -- The action leaves `R` where it fails, and its handler makes `I` of that.
  pub Triple-on_error :
      {m : Exec W A} {h : Error → Exec W Unit}
      → Triple R P m Q
      → ((e : Error) → Triple I R (h e) (λ _. I))
      → Triple I P (on_error m h) Q
  unfolding on_error
  Triple-on_error {m = m} {h = h} t k = record {
    at = λ w p. Post-on_error Q h (m w).0 (m w).1 (t.at w p) k;
  }

-- A postcondition from the two ways in which an action ends.
pub Post-intro :
    {W A : Type 0} {I : W → Type 0} (Q : A → W → Type 0) (r : Result A × W)
    → ((a : A) (w : W) → r ≡ (ok a, w) → Q a w)
    → ((e : Error) (w : W) → r ≡ (err e, w) → I w)
    → Post I Q r
Post-intro Q (ok a, w) f g = f a w refl
Post-intro Q (err e, w) f g = g e w refl

-- What a passed test and a value that is no error tell the rest of the block.
module _ {W B : Type 0} {I P : W → Type 0} {Q : B → W → Type 0} where
  pub Triple-guard :
      (b : Bool) (e : Error) (m : Exec W B)
      → ((w : W) → P w → I w)
      → (b ≡ false → Triple I P m Q)
      → Triple I P (raise_if b e >> m) Q
  unfolding ◌>>=◌
  Triple-guard true e m out h = record { at = out }
  Triple-guard false e m out h = record { at = (h refl).at }

  pub Triple-check :
      (b : Bool) (e : Error) (m : Exec W B)
      → (b ≡ true → (w : W) → P w → I w)
      → (b ≡ false → Triple I P m Q)
      → Triple I P (raise_if b e >> m) Q
  unfolding ◌>>=◌
  Triple-check true e m out h = record { at = out refl }
  Triple-check false e m out h = record { at = (h refl).at }

  pub Triple-result :
      {A : Type 0} (r : Result A) (f : A → Exec W B)
      → ((e : Error) → r ≡ err e → (w : W) → P w → I w)
      → ((a : A) → r ≡ ok a → Triple I P (f a) Q)
      → Triple I P (lift r >>= f) Q
  unfolding ◌>>=◌
  Triple-result (ok a) f out h = record { at = (h a refl).at }
  Triple-result (err e) f out h = record { at = out e refl }

  pub Triple-lift_ok :
      {A : Type 0} (r : Result A) (a : A) (f : A → Exec W B)
      → r ≡ ok a
      → Triple I P (f a) Q
      → Triple I P (lift r >>= f) Q
  unfolding ◌>>=◌
  Triple-lift_ok r a f e t = subst (λ x. Triple I P (lift x >>= f) Q) (sym e) (record { at = t.at })

  pub Triple-lift_bind :
      {A : Type 0} (r : Result A) (f : A → Exec W B)
      → ((w : W) → P w → I w)
      → ((a : A) → r ≡ ok a → Triple I P (f a) Q)
      → Triple I P (lift r >>= f) Q
  unfolding ◌>>=◌
  Triple-lift_bind (ok a) f out h = record { at = (h a refl).at }
  Triple-lift_bind (err e) f out h = record { at = out }

-- An action on the state that `f` leaves.
pub Triple-after :
    {W A : Type 0} {I P P' : W → Type 0} {Q : A → W → Type 0} {m : Exec W A} (f : W → W)
    → ((w : W) → P w → P' (f w))
    → Triple I P' m Q
    → Triple I P (λ w. m (f w)) Q
Triple-after f moves t = record { at = λ w p. t.at (f w) (moves w p) }

-- A part of the precondition that speaks of no state.
pub Triple-given :
    {W A H : Type 0} {I P : W → Type 0} {Q : A → W → Type 0} {m : Exec W A}
    → (H → Triple I P m Q)
    → Triple I (λ w. P w × H) m Q
Triple-given f = record { at = λ w (p, h). (f h).at w p }

Post-map_error :
    {W A : Type 0} (I : W → Type 0) (Q : A → W → Type 0) (f : Error → Error) (r : Result A) (w : W)
    → Post I Q (r, w)
    → Post I Q (map_error f (λ v. (r, v)) w)
unfolding map_error
Post-map_error I Q f (ok a) w p = p
Post-map_error I Q f (err e) w p = p

module _ {W A : Type 0} {I P : W → Type 0} {Q : A → W → Type 0} where
  pub Triple-map_error :
      (f : Error → Error) {m : Exec W A} → Triple I P m Q → Triple I P (map_error f m) Q
  unfolding map_error
  Triple-map_error f {m} t = record { at = λ w p. Post-map_error I Q f (m w).0 (m w).1 (t.at w p) }

-- A test that is known to pass, and one that is known to hold.
module _ {W A : Type 0} {I P : W → Type 0} {Q : A → W → Type 0} where
  pub Triple-pass :
      (b : Bool) (e : Error) (m : Exec W A)
      → b ≡ false
      → Triple I P m Q
      → Triple I P (raise_if b e >> m) Q
  unfolding ◌>>=◌
  Triple-pass true e m h t = absurd (cc)
  Triple-pass false e m h t = record { at = t.at }

  pub Triple-then :
      (b : Bool) {m : Exec W A} (n : Exec W A)
      → b ≡ true
      → Triple I P m Q
      → Triple I P (if b then m else n) Q
  Triple-then true n h t = t
  Triple-then false n h t = absurd (cc)

Post-weaken :
    {W A : Type 0} (I : W → Type 0) (Q Q' : A → W → Type 0)
    → ((a : A) (w : W) → Q a w → Q' a w)
    → (r : Result A × W) → Post I Q r
    → Post I Q' r
Post-weaken I Q Q' f (ok a, w) p = f a w p
Post-weaken I Q Q' f (err e, w) p = p

pub Triple-weaken :
    {W A : Type 0} {I P : W → Type 0} {Q Q' : A → W → Type 0} {m : Exec W A}
    → ((a : A) (w : W) → Q a w → Q' a w)
    → Triple I P m Q
    → Triple I P m Q'
Triple-weaken {I = I} {Q = Q} {Q' = Q'} {m = m} f t = record {
  at = λ w p. Post-weaken I Q Q' f (m w) (t.at w p);
}

Post-error_weaken :
    {W A : Type 0} (I I' : W → Type 0) (Q : A → W → Type 0)
    → ((w : W) → I w → I' w)
    → (r : Result A × W) → Post I Q r
    → Post I' Q r
Post-error_weaken I I' Q f (ok a, w) p = p
Post-error_weaken I I' Q f (err e, w) p = f w p

pub Triple-error_weaken :
    {W A : Type 0} {I I' P : W → Type 0} {Q : A → W → Type 0} {m : Exec W A}
    → ((w : W) → I w → I' w)
    → Triple I P m Q
    → Triple I' P m Q
Triple-error_weaken {I = I} {I' = I'} {Q = Q} {m = m} f t = record {
  at = λ w p. Post-error_weaken I I' Q f (m w) (t.at w p);
}
