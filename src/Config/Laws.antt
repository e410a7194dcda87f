-- ===== src/Config/Laws.antt =====
-- internal/config and internal/awssecret: a binary that has resolved its key runs against the
-- cloud.
use temporal_serverless_rain.Base.{
  String, str_eq, Bool, true, Bool-cases, inl, inr, none, some, ◌≡◌, refl,
}
use temporal_serverless_rain.Config.{Environment, temporal_from_env, cloud}
use temporal_serverless_rain.Config.Secret.{
  SecretValue, unread, value, Keyed, resolved, failed, read_key, resolve_temporal_api_key,
}

-- With its key resolved, a binary's settings are for the cloud.
abbrev pub IsForCloud : Keyed → Type 0
IsForCloud (resolved e) = cloud (temporal_from_env e) ≡ true
IsForCloud (failed err) = Unit

read_key-IsForCloud :
    (sets : String → Bool) (e : Environment) (v : SecretValue) → IsForCloud (read_key sets e v)
unfolding temporal_from_env cloud
read_key-IsForCloud sets e unread = tt
read_key-IsForCloud sets e (value none) = tt
read_key-IsForCloud sets e (value (some key)) = elim (Bool-cases (str_eq key "")) [
  | inl h ↦ rw h tt
  | inr h ↦ elim (Bool-cases (sets key)) [ inl s ↦ rw (h, s) (rw h refl) | inr s ↦ rw (h, s) tt ]
]

-- Whatever AWS answers: if a binary in Lambda resolves its API key, from its environment or from a
-- secret, its settings are then for the cloud, with credentials that are not empty.
pub resolve_temporal_api_key-IsForCloud :
    (loads : Bool) (secret : String → SecretValue) (sets : String → Bool) (e : Environment)
    → IsForCloud (resolve_temporal_api_key loads secret sets e)
unfolding temporal_from_env cloud resolve_temporal_api_key
resolve_temporal_api_key-IsForCloud loads secret sets e =
    elim (Bool-cases (str_eq (e "TEMPORAL_API_KEY") "")) [
      | inr h ↦ rw h (rw h refl)
      | inl h ↦ elim (Bool-cases (str_eq (e "TEMPORAL_API_KEY_SECRET_ARN") "")) [
        | inl g ↦ rw (h, g) tt
        | inr g ↦ elim (Bool-cases loads) [
          | inl l ↦
              rw (h, g, l) (read_key-IsForCloud sets e (secret (e "TEMPORAL_API_KEY_SECRET_ARN")))
          | inr l ↦ rw (h, g, l) tt
        ]
      ]
    ]
