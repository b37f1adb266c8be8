-- ===== src/Start/Settings.antt =====
-- What a control plane that listens has: its configuration, empty maps, and a pair of keys.
use lean_sandbox.Common.{
  ◌≡◌, ◌≢◌, Bool-cases, refl, sym, ap, ◌∙◌, true, false, Option, none, some, List, [], ◌∷◌, ◌⊎◌,
  inl, inr,
}
use lean_sandbox.Common.Int.{pos}
use lean_sandbox.Common.Text.{Bytes, is_empty}
use lean_sandbox.Config.{Config, merge, with_defaults}
use lean_sandbox.Start.Layers.{layered, with_defaults-layered}
use lean_sandbox.Jwt.Keys.{generate_key}
use lean_sandbox.ControlPlane.{initial}
use lean_sandbox.Start.Plane.{
  PlaneFlags, Surroundings, Plane, plane_listens, plane_defaults, parse_plane_flags, load_config,
  laid_over, settings_of, access, keyed, connected, accessed, new_plane, over_plane, over_settings,
  over_flags, plane_main,
}

-- no setting
abbrev pub unset : Config
unset = record {
  sandboxes = [];
  namespace = [];
  agent_port = pos 0;
  agent_image = [];
  lease_ttl = pos 0;
  reconcile_every = pos 0;
  token_ttl = pos 0;
  wait_pod_ready_timeout = pos 0;
  wait_pod_ready_poll_interval = pos 0;
  pod_provision_grace = pos 0;
  host_aliases = [];
}

merge-unset : (c : Config) → merge c unset ≡ c
unfolding merge
merge-unset c = refl

-- The process listens with these flags, and with this file, if there is one.
pub record Running (u : Surroundings) (args : List Bytes) (addr api_key : Bytes) (p : Plane u)
    : Type 0 where
  pub flags : PlaneFlags
  pub parsed : parse_plane_flags u (plane_defaults u) args ≡ some flags
  pub its_addr : addr ≡ flags.addr
  pub its_api_key : api_key ≡ flags.api_key
  pub file : Config
  pub read :
      ((flags.config_path ≡ []) × (file ≡ unset))
      ⊎ ((flags.config_path ≢ []) × (load_config u flags.config_path ≡ inr file))
  pub its_maps : p.cp ≡ initial (layered flags.config file) p.cp.pub_key_b64
  pub its_keys : generate_key u.keys u.new_key ≡ inr (p.signing_key, p.cp.pub_key_b64)

is_empty-nil : (s : Bytes) → is_empty s ≡ true → s ≡ []
is_empty-nil [] e = refl
is_empty-nil (b ∷ s) e = absurd (cc e)

not_empty : (s : Bytes) → is_empty s ≡ false → s ≢ []
not_empty s e n = absurd (cc (e, ap is_empty n))

module _ (u : Surroundings) where
  -- a plane with empty maps and this configuration, and with the keys
  abbrev Made : Config → Bytes ⊎ (u.c.PrivateKey × Bytes) → Plane u → Type 0
  Made config o p =
      (p.cp ≡ initial config p.cp.pub_key_b64) × (o ≡ inr (p.signing_key, p.cp.pub_key_b64))

  keyed-Made :
      (config : Config) (client : u.Client) (o : Bytes ⊎ (u.c.PrivateKey × Bytes)) (p : Plane u)
      → keyed u config client o ≡ inr p
      → Made config o p
  keyed-Made config client (inl e) p h = absurd (cc h)
  keyed-Made config client (inr (key, b64)) p h =
      let same : record { cp = initial config b64; signing_key = key; client = client } ≡ p =
        cc h in
      (
        sym (ap (λ q. q.cp) same) ∙ ap (λ q. initial config q.cp.pub_key_b64) same,
        ap (λ q. inr (q.signing_key, q.cp.pub_key_b64)) same,
      )

  connected-Made :
      (config : Config) (o : Bytes ⊎ u.Client) (p : Plane u)
      → connected u config o ≡ inr p
      → Made config (generate_key u.keys u.new_key) p
  connected-Made config (inl e) p h = absurd (cc h)
  connected-Made config (inr client) p h = keyed-Made config client _ p h

  accessed-Made :
      (config : Config) (o : Bytes ⊎ u.Access) (p : Plane u)
      → accessed u config o ≡ inr p
      → Made config (generate_key u.keys u.new_key) p
  accessed-Made config (inl e) p h = absurd (cc h)
  accessed-Made config (inr a) p h = connected-Made config (u.new_for_config a) p h

  new_plane-Made :
      (config : Config) (p : Plane u)
      → new_plane u config ≡ inr p
      → Made config (generate_key u.keys u.new_key) p
  unfolding new_plane
  new_plane-Made config p h = accessed-Made config (access u u.in_cluster_config) p h

  -- the file that the flags name
  abbrev FileOf : PlaneFlags → Config → Type 0
  FileOf f file =
      ((f.config_path ≡ []) × (file ≡ unset))
      ⊎ ((f.config_path ≢ []) × (load_config u f.config_path ≡ inr file))

  laid_over-file :
      (f : PlaneFlags) (o : Bytes ⊎ Config) (config : Config)
      → laid_over u f o ≡ inr config
      → (file : Config) × (o ≡ inr file) × (config ≡ layered f.config file)
  laid_over-file f (inl e) config h = absurd (cc h)
  laid_over-file f (inr file) config h =
      let same : with_defaults (merge f.config file) ≡ config = cc h in
      (file, refl, sym same ∙ with_defaults-layered f.config file)

  settings_of-file :
      (f : PlaneFlags) (config : Config)
      → settings_of u f ≡ inr config
      → (file : Config) × FileOf f file × (config ≡ layered f.config file)
  unfolding settings_of
  settings_of-file f config h = elim (Bool-cases (is_empty f.config_path)) [
    | inl e ↦
        let same : with_defaults f.config ≡ config = cc (rw e at h) in
        (
          unset,
          inl (is_empty-nil f.config_path e, refl),
          sym same
              ∙ ap with_defaults (sym (merge-unset f.config))
              ∙ with_defaults-layered f.config unset,
        )
    | inr e ↦
        let (file, read, same) =
          laid_over-file f (load_config u f.config_path) config (rw e at h) in
        (file, inr (not_empty f.config_path e, read), same)
  ]

  over_plane-listens :
      (f : PlaneFlags) (config : Config) (o : Bytes ⊎ Plane u) (addr api_key : Bytes) (p : Plane u)
      → over_plane u f o ≡ plane_listens addr api_key p
      → (o ≡ inr p) × (addr ≡ f.addr) × (api_key ≡ f.api_key)
  over_plane-listens f config (inl e) addr api_key p h = absurd (cc h)
  over_plane-listens f config (inr q) addr api_key p h = (cc h, cc h, cc h)

  over_settings-Running :
      (args : List Bytes) (f : PlaneFlags) (o : Bytes ⊎ Config) (addr api_key : Bytes) (p : Plane u)
      → parse_plane_flags u (plane_defaults u) args ≡ some f
      → settings_of u f ≡ o
      → over_settings u f o ≡ plane_listens addr api_key p
      → Running u args addr api_key p
  over_settings-Running args f (inl e) addr api_key p g k h = absurd (cc h)
  over_settings-Running args f (inr config) addr api_key p g k h =
      let (new, its_addr, its_api_key) =
        over_plane-listens f config (new_plane u config) addr api_key p h in
      let (file, read, same) = settings_of-file f config k in
      let (maps, keys) = new_plane-Made config p new in
      record {
        flags = f;
        parsed = g;
        its_addr = its_addr;
        its_api_key = its_api_key;
        file = file;
        read = read;
        its_maps = maps ∙ ap (λ c. initial c p.cp.pub_key_b64) same;
        its_keys = keys;
      }

  over_flags-Running :
      (args : List Bytes) (o : Option PlaneFlags) (addr api_key : Bytes) (p : Plane u)
      → parse_plane_flags u (plane_defaults u) args ≡ o
      → over_flags u o ≡ plane_listens addr api_key p
      → Running u args addr api_key p
  over_flags-Running args none addr api_key p g h = absurd (cc h)
  over_flags-Running args (some f) addr api_key p g h =
      over_settings-Running args f (settings_of u f) addr api_key p g refl h

-- A control plane that listens has the address and the API key of its flags; its configuration is,
-- setting by setting, that of the file, or else that of the flags, or else the default, and there is
-- no file only where the flags and the environment name none; its maps are empty; and the key that it
-- puts into the pods is the text that `GenerateKey` made of the public half of the key that it signs
-- with.
pub plane_main-Running :
    (u : Surroundings) (args : List Bytes) (addr api_key : Bytes) (p : Plane u)
    → plane_main u args ≡ plane_listens addr api_key p
    → Running u args addr api_key p
unfolding plane_main
plane_main-Running u args addr api_key p h =
    over_flags-Running u args (parse_plane_flags u (plane_defaults u) args) addr api_key p refl h
