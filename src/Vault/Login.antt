-- ===== src/Vault/Login.antt =====
-- Authentication that returns leaves the client with a token.
use bmc_secret_operator.Base.{
  ◌≡◌, ◌≢◌, ◌∙◌, refl, sym, ℕ, ◌-◌, String, ◌<>◌, Option, none, some, ◌==◌, arith,
}
use bmc_secret_operator.Base.{
  Error, Result, errorf, wrap, [], ◌∷◌, ok, err, inl, inr, Result-cases, Option-cases, Bool-cases,
  eq_iff,
}
use bmc_secret_operator.Base.Effect.{Eff, ◌>>◌, pure}
use bmc_secret_operator.Interface.{MetricsCollector, str}
use bmc_secret_operator.Vault.{Config, VaultBackend}
use bmc_secret_operator.Vault.Auth.{
  service_account_token_path, client_token, record_auth, authenticate, authenticate_kubernetes,
  authenticate_token,
}
use bmc_secret_operator.Vault.Client.{VaultApi, Secret}

-- Each client has a token: SetToken sets it, and what the authentication calls behind it, the clock,
-- the metrics and LookupSelf, and ListMounts leave it.
pub record IsTokenKeeper {S C : Type 0} (api : VaultApi S C)
    (collector : Option (MetricsCollector S)) (token : S → C → String) : Type 0 where
  pub set_token_value : (c : C) (t : String) (s : S) → token (api.set_token c t s).1 c ≡ t
  pub lookup_self_keeps : (c : C) (s : S) → token (api.lookup_self c s).1 c ≡ token s c
  pub list_mounts_keeps : (c : C) (s : S) → token (api.list_mounts c s).1 c ≡ token s c
  pub now_keeps : (c : C) (s : S) → token (api.now s).1 c ≡ token s c
  pub record_auth_keeps :
      (m : MetricsCollector S)
      → collector ≡ some m
      → (method backend_type : String) (n : ℕ) (e : Option Error) (c : C) (s : S)
      → token (m.record_auth method backend_type n e s).1 c ≡ token s c

client_token-nonempty :
    (secret : Option Secret) (t : String) → client_token secret ≡ some t → t ≢ ""
client_token-nonempty none t h = cc
client_token-nonempty (some secret) t h = elim (Option-cases secret.auth) [
  | inl x ↦ cc (rw (x, client_token) at h)
  | inr (auth, x) ↦ elim (Bool-cases (auth.client_token == "")) [
    | inl empty ↦ cc (rw (x, empty, client_token) at h)
    | inr there ↦
        let same : some auth.client_token ≡ some t = rw (x, there, client_token) at h in
        λ empty. ground (arith, eq_iff auth.client_token "")
  ]
]

abbrev login : {S C : Type 0} → VaultApi S C → Config → String → C → Eff S (Result (Option Secret))
login api config jwt c =
    api.logical_write c ("auth/" <> config.kubernetes_auth_path <> "/login")
      (("jwt", str jwt) ∷ ("role", str config.kubernetes_auth_role) ∷ [])

module _ {S C : Type 0} (api : VaultApi S C) (collector : Option (MetricsCollector S))
    (token : S → C → String) (keeper : IsTokenKeeper api collector token) where
  record_auth-keeps :
      (method : String) (start : ℕ) (e : Option Error) (c : C) (s : S)
      → token (record_auth api collector method start e s).1 c ≡ token s c
  unfolding record_auth
  record_auth-keeps method start e c s = elim (Option-cases collector) [
    | inl x ↦ rw (x, record_auth) refl
    | inr (m, x) ↦
        rw (x, record_auth)
          (keeper.record_auth_keeps m x method "vault" ((api.now s).0 - start) e c (api.now s).1
            ∙ keeper.now_keeps c s)
  ]

  -- The end of `authenticateKubernetes`.
  logged_in-token :
      (found : Option String) (start : ℕ) (c : C) (s : S)
      → let end : Eff S (Result (Unit {0})) = elim found [
        | none ↦
            record_auth api collector "kubernetes" start
              (some (errorf "kubernetes auth returned no token"))
            >> pure (err (errorf "kubernetes auth returned no token"))
        | some t ↦
            api.set_token c t >> record_auth api collector "kubernetes" start none >> pure (ok tt)
      ] in
        (end s).0 ≡ ok tt → (t : String) × (found ≡ some t) × (token (end s).1 c ≡ t)
  logged_in-token none start c s h = cc
  logged_in-token (some t) start c s h = (
    t,
    refl,
    record_auth-keeps "kubernetes" start none c (api.set_token c t s).1
        ∙ keeper.set_token_value c t s,
  )

  authenticate_kubernetes-token :
      (v : VaultBackend C) (config : Config) (s : S)
      → (authenticate_kubernetes api collector v config s).0 ≡ ok tt
      → token (authenticate_kubernetes api collector v config s).1 v.client ≢ ""
  unfolding authenticate_kubernetes
  authenticate_kubernetes-token v config s h =
      let (start, s1) = api.now s in
      let (jwt_read, s2) = api.read_file service_account_token_path s1 in
      elim (Result-cases jwt_read) [
        | inr (e, x) ↦ cc (rw (x, authenticate_kubernetes) at h)
        | inl (jwt, x) ↦
            let (written, s3) = login api config jwt v.client s2 in
            elim (Result-cases written) [
              | inr (e, y) ↦
                  cc (rw (y, authenticate_kubernetes) at (rw (x, authenticate_kubernetes) at h))
              | inl (secret, y) ↦
                  let (t, found, set) =
                    logged_in-token (client_token secret) start v.client s3
                      (rw (y, authenticate_kubernetes) at (rw (x, authenticate_kubernetes) at h)) in
                  let kept : token (authenticate_kubernetes api collector v config s).1 v.client
                      ≡ t =
                    rw (x, authenticate_kubernetes) (rw (y, authenticate_kubernetes) set) in
                  λ empty. client_token-nonempty secret t found (sym kept ∙ empty)
            ]
      ]

  -- The end of `authenticateToken`.
  looked_up_keeps :
      (looked_up : Result (Unit {0})) (start : ℕ) (c : C) (s : S)
      → let end : Eff S (Result (Unit {0})) = elim looked_up [
        | err e ↦
            record_auth api collector "token" start (some e)
            >> pure (err (wrap "token validation failed" e))
        | ok _ ↦ record_auth api collector "token" start none >> pure (ok tt)
      ] in
        token (end s).1 c ≡ token s c
  looked_up_keeps (ok tt) start c s = record_auth-keeps "token" start none c s
  looked_up_keeps (err e) start c s = record_auth-keeps "token" start (some e) c s

  authenticate_token-token :
      (v : VaultBackend C) (config : Config) (s : S)
      → (authenticate_token api collector v config s).0 ≡ ok tt
      → token (authenticate_token api collector v config s).1 v.client ≢ ""
  unfolding authenticate_token
  authenticate_token-token v config s h = elim (Bool-cases (config.token == "")) [
    | inl empty ↦ cc (rw (empty, authenticate_token) at h)
    | inr there ↦
        let (start, s1) = api.now s in
        let (u, s2) = api.set_token v.client config.token s1 in
        let (looked_up, s3) = api.lookup_self v.client s2 in
        let kept : token (authenticate_token api collector v config s).1 v.client ≡ config.token =
          rw (there, authenticate_token) (looked_up_keeps looked_up start v.client s3)
          ∙ keeper.lookup_self_keeps v.client s2
          ∙ keeper.set_token_value v.client config.token s1 in
        λ empty. ground (arith, eq_iff config.token "")
  ]

  pub authenticate-token :
      (v : VaultBackend C) (config : Config) (s : S)
      → (authenticate api collector v config s).0 ≡ ok tt
      → token (authenticate api collector v config s).1 v.client ≢ ""
  unfolding authenticate
  authenticate-token v config s h = elim (Bool-cases (config.auth_method == "kubernetes")) [
    | inl k ↦
        rw (k, authenticate) (authenticate_kubernetes-token v config s (rw (k, authenticate) at h))
    | inr k ↦ elim (Bool-cases (config.auth_method == "token")) [
      | inl t ↦
          rw (k, t, authenticate)
            (authenticate_token-token v config s (rw (k, t, authenticate) at h))
      | inr t ↦ elim (Bool-cases (config.auth_method == "approle")) [
        | inl a ↦ cc (rw (k, t, a, authenticate) at h)
        | inr a ↦ cc (rw (k, t, a, authenticate) at h)
      ]
    ]
  ]
