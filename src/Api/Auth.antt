-- ===== src/Api/Auth.antt =====
-- requireAPIKey of internal/api/server.go: which requests pass.
use mathlib.Core.List.{Memᴰ}
use mpc_custody.Prelude.{
  ◌≡◌, refl, ◌↔◌, ◌⊎◌, inl, inr, Bool, true, false, ◌&&◌, ◌||◌, List, [], ◌∷◌, arith, if◌then◌else◌,
  Bool-cases,
}
use mpc_custody.Go.Str.{Str, str_eq, str_eq_iff, bytes}
use mpc_custody.Go.Split.{trim_prefix, has_prefix}

-- What the server reads of a request; a header or a query parameter that is not there is empty.
pub record HttpRequest : Type 0 where
  pub method : Str
  pub path : Str
  pub api_key : Str
  pub authorization : Str
  pub idempotency_key : Str
  pub traceparent : Str
  pub query : Str → Str
  pub body : Str

-- `provided`: the key of the X-API-Key header, or else that of a bearer token.
unfoldable pub provided_key : HttpRequest → Str
provided_key r =
    if str_eq r.api_key [] && has_prefix (bytes "Bearer ") r.authorization
    then trim_prefix (bytes "Bearer ") r.authorization
    else r.api_key

-- The loop over the keys; subtle.ConstantTimeCompare is 1 on equal strings.
unfoldable pub matches_key : Str → List Str → Bool
matches_key provided [] = false
matches_key provided (key ∷ keys) = str_eq provided key || matches_key provided keys

unfoldable pub is_authorized : List Str → HttpRequest → Bool
is_authorized keys r = elim keys [
  | [] ↦ true
  | key ∷ rest ↦ matches_key (provided_key r) (key ∷ rest)
]

matches_key_sound :
    (provided : Str) (keys : List Str) → matches_key provided keys ≡ true → Memᴰ provided keys
unfolding matches_key
matches_key_sound provided [] h = absurd (cc)
matches_key_sound provided (key ∷ keys) h = elim (Bool-cases (str_eq provided key)) [
  | inl same ↦ Memᴰ.head ((str_eq_iff provided key).0 same)
  | inr other ↦ Memᴰ.tail (matches_key_sound provided keys (ground arith))
]

matches_key_complete :
    (provided : Str) (keys : List Str) → Memᴰ provided keys → matches_key provided keys ≡ true
unfolding matches_key
matches_key_complete provided [] m = elim m [ ]
matches_key_complete provided (key ∷ keys) (Memᴰ.head e) =
    let same = (str_eq_iff provided key).1 e in ground arith
matches_key_complete provided (key ∷ keys) (Memᴰ.tail m) =
    let rest = matches_key_complete provided keys m in ground arith

-- A request passes exactly when the server has no keys, or the key that it brings is one of them.
pub is_authorized_iff :
    (keys : List Str) (r : HttpRequest)
    → (is_authorized keys r ≡ true) ↔ ((keys ≡ []) ⊎ Memᴰ (provided_key r) keys)
unfolding is_authorized
is_authorized_iff [] r = (λ h. inl refl, λ h. refl)
is_authorized_iff (key ∷ keys) r =
    (λ h. inr (matches_key_sound (provided_key r) (key ∷ keys) h), admitted)
  where
    admitted :
        ((key ∷ keys ≡ []) ⊎ Memᴰ (provided_key r) (key ∷ keys))
        → matches_key (provided_key r) (key ∷ keys) ≡ true
    admitted (inl e) = absurd (ground arith)
    admitted (inr m) = matches_key_complete (provided_key r) (key ∷ keys) m
