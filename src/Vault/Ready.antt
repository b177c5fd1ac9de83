-- ===== src/Vault/Ready.antt =====
-- What a backend that `NewVaultBackend` returns is: authenticated, and of the mount's KV version.
use bmc_secret_operator.Base.{
  ◌≡◌, ◌≢◌, ◌⊎◌, ◌↔◌, ◌||◌, ◌==◌, eq_iff, arith, Option-cases, ◌∙◌, refl, subst, ap, sym, String,
  ◌<>◌, true, Option, none, some,
}
use bmc_secret_operator.Base.{Result, errorf, ok, err, inl, inr, Result-cases}
use bmc_secret_operator.Base.Effect.{Eff, pure}
use bmc_secret_operator.Base.Dict.{Dict, lookup, find}
use bmc_secret_operator.Interface.{MetricsCollector}
use bmc_secret_operator.Vault.{Config, VaultBackend}
use bmc_secret_operator.Vault.Auth.{authenticate}
use bmc_secret_operator.Vault.Client.{VaultApi, Mount}
use bmc_secret_operator.Vault.New.{root_cas, mount_is_kv_v2, detect_kv_version, new_vault_backend}
use bmc_secret_operator.Vault.Login.{IsTokenKeeper, authenticate-token}

-- A mount that is taken for KV version 2: its options say "2", or they do not say "1" and its type is
-- kv or generic.
abbrev pub IsVersion2 : Mount → Type 0
IsVersion2 mount =
    (find "version" mount.options ≡ some "2")
    ⊎ ((find "version" mount.options ≢ some "1") × ((mount.type ≡ "kv") ⊎ (mount.type ≡ "generic")))

module _ (mount : Mount) where
  type_lem :
      ((mount.type == "kv" || mount.type == "generic") ≡ true)
      ↔ ((mount.type ≡ "kv") ⊎ (mount.type ≡ "generic"))
  type_lem = ground (arith, eq_iff mount.type "kv", eq_iff mount.type "generic")

  mount_is_kv_v2_iff : (mount_is_kv_v2 mount ≡ true) ↔ IsVersion2 mount
  unfolding mount_is_kv_v2
  mount_is_kv_v2_iff = elim (Option-cases (find "version" mount.options)) [
    | inl e ↦ rw (e, mount_is_kv_v2) (ground (arith, type_lem))
    | inr (version, e) ↦ ground (arith, type_lem, eq_iff version "1", eq_iff version "2")
  ]

module _ {S C : Type 0} (api : VaultApi S C) where
  -- Version 2 is used exactly for a mount that `IsVersion2` holds of, as ListMounts has it.
  abbrev pub HasVersion : VaultBackend C → Type 0
  HasVersion v =
      (s : S) × (mounts : Dict Mount) × (mount : Mount) × ((api.list_mounts v.client s).0
        ≡ ok mounts)
      × (lookup (v.mount_path <> "/") mounts ≡ some mount)
      × ((v.is_kv_v2 ≡ true) ↔ IsVersion2 mount)

module _ {S C : Type 0} (api : VaultApi S C) (collector : Option (MetricsCollector S))
    (token : S → C → String) (keeper : IsTokenKeeper api collector token) where
  -- The end of `detectKVVersion`.
  detected :
      (found : Option Mount) (v v' : VaultBackend C) (s : S)
      → let end : Eff S (Result (VaultBackend C)) = elim found [
        | none ↦ pure (err (errorf ("mount " <> v.mount_path <> " not found")))
        | some mount ↦ pure (ok (record v { is_kv_v2 = mount_is_kv_v2 mount }))
      ] in
        (end s).0 ≡ ok v'
        → (mount : Mount) × (found ≡ some mount)
          × (record v { is_kv_v2 = mount_is_kv_v2 mount } ≡ v')
          × ((end s).1 ≡ s)
  detected none v v' s h = cc
  detected (some mount) v v' s h = (mount, refl, cc h, refl)

  detect_kv_version-HasVersion :
      (v v' : VaultBackend C) (s : S)
      → (detect_kv_version api v s).0 ≡ ok v'
      → HasVersion api v'
        × (v'.client ≡ v.client)
        × (v'.mount_path ≡ v.mount_path)
        × (token (detect_kv_version api v s).1 v.client ≡ token s v.client)
  unfolding detect_kv_version
  detect_kv_version-HasVersion v v' s h = elim (Result-cases (api.list_mounts v.client s).0) [
    | inr (e, x) ↦ cc (rw (x, detect_kv_version) at h)
    | inl (mounts, x) ↦
        let (mount, found, same, quiet) =
          detected (lookup (v.mount_path <> "/") mounts) v v' (api.list_mounts v.client s).1
            (rw (x, detect_kv_version) at h) in
        (
          subst (HasVersion api) same (s, mounts, mount, x, found, mount_is_kv_v2_iff mount),
          ap (λ (w : VaultBackend C). w.client) (sym same),
          ap (λ (w : VaultBackend C). w.mount_path) (sym same),
          rw (x, detect_kv_version)
              (ap (λ s'. token s' v.client) quiet ∙ keeper.list_mounts_keeps v.client s),
        )
  ]

  -- The backend before the KV version is known.
  abbrev base : Config → C → VaultBackend C
  base config client = record { client = client; mount_path = config.mount_path; is_kv_v2 = true }

  -- A constructor that returns has authenticated and asked for the KV version, in this order.
  new_vault_backend-steps :
      (config : Config) (s : S) (v : VaultBackend C)
      → (new_vault_backend api collector config s).0 ≡ ok v
      → (client : C) × (s1 : S) × ((authenticate api collector (base config client) config s1).0
          ≡ ok tt)
        × (let s2 = (authenticate api collector (base config client) config s1).1 in
            ((detect_kv_version api (base config client) s2).0 ≡ ok v)
            × ((new_vault_backend api collector config s).1
                ≡ (detect_kv_version api (base config client) s2).1))
  unfolding new_vault_backend
  new_vault_backend-steps config s v h = elim (Result-cases (root_cas api config.ca_cert)) [
    | inr (e, x) ↦ cc (rw (x, new_vault_backend) at h)
    | inl (pool, x) ↦
        let (made, s1) = api.new_client config.address config.skip_verify pool s in
        elim (Result-cases made) [
          | inr (e, y) ↦ cc (rw (y, new_vault_backend) at (rw (x, new_vault_backend) at h))
          | inl (client, y) ↦
              let h2 = rw (y, new_vault_backend) at (rw (x, new_vault_backend) at h) in
              let (entered, s2) = authenticate api collector (base config client) config s1 in
              elim (Result-cases entered) [
                | inr (e, z) ↦ cc (rw (z, new_vault_backend) at h2)
                | inl (_, z) ↦
                    elim (Result-cases (detect_kv_version api (base config client) s2).0) [
                      | inr (e, w) ↦
                          cc (rw (w, new_vault_backend) at (rw (z, new_vault_backend) at h2))
                      | inl (v', w) ↦ (
                        client,
                        s1,
                        z,
                        (
                          w ∙ (rw (w, new_vault_backend) at (rw (z, new_vault_backend) at h2)),
                          rw (x, new_vault_backend)
                              (rw (y, new_vault_backend)
                                (rw (z, new_vault_backend) (rw (w, new_vault_backend) refl))),
                        ),
                      )
                    ]
              ]
        ]
  ]

  -- Given clients that keep the token set on them: a backend that NewVaultBackend returns, by any
  -- method of authentication, has a client with a token that is not empty and the configured mount
  -- path, and it uses KV version 2 exactly if, in an answer of ListMounts, the options of the mount
  -- at this path say version "2", or say neither "1" nor "2" and its type is kv or generic.
  pub new_vault_backend-HasVersion :
      (config : Config) (s : S) (v : VaultBackend C)
      → (new_vault_backend api collector config s).0 ≡ ok v
      → (token (new_vault_backend api collector config s).1 v.client ≢ "")
        × (v.mount_path ≡ config.mount_path)
        × HasVersion api v
  new_vault_backend-HasVersion config s v h =
      let (client, s1, entered, (found, ends)) = new_vault_backend-steps config s v h in
      let s2 = (authenticate api collector (base config client) config s1).1 in
      let (version, c, m, kept) = detect_kv_version-HasVersion (base config client) v s2 found in
      (
        λ empty.
            authenticate-token api collector token keeper (base config client) config s1 entered (
              sym kept
              ∙ ap (λ k. token (detect_kv_version api (base config client) s2).1 k) (sym c)
              ∙ ap (λ t. token t v.client) (sym ends)
              ∙ empty),
        m,
        version,
      )
