-- ===== src/Config/Environment.antt =====
-- What LoadDotEnv does to the variables of the environment.
use chobits.Prelude.{
  Bool-cases, inl, inr, ◌≡◌, refl, ap, ◌∙◌, ℕ, false, Option, none, some, List, [], ◌∷◌, Bytes,
  Result, ok, err,
}
use chobits.Text.{text_eq, text_eq-eq}
use chobits.Config.Dotenv.{
  Error, Err, Entry, Host, Loaded, after_set, set_unless, set_entries, apply_entries, after_open,
  load_one, load_loop, try_load, parse_dotenv, or_error,
}

-- What package os documents: Setenv changes no other variable, and files have no effect on the
-- environment.
pub record Keeping {W : Type 0} (host : Host W) : Type 0 where
  pub sets_other :
      (k j x : Bytes) (w : W)
      → text_eq k j ≡ false
      → host.lookup_env j (host.setenv k x w).1 ≡ host.lookup_env j w
  pub opens :
      (path j : Bytes) (w : W) → host.lookup_env j (host.open_file path w).1 ≡ host.lookup_env j w
  pub scans :
      (file : ℕ) (j : Bytes) (w : W) → host.lookup_env j (host.scan file w).1 ≡ host.lookup_env j w
  pub closes :
      (file : ℕ) (j : Bytes) (w : W)
      → host.lookup_env j (host.close_file file w).1 ≡ host.lookup_env j w

module _ {W : Type 0} (host : Host W) (keeping : Keeping host) (j v : Bytes) where
  -- A step that leaves the variable as it is, if it has this value.
  unfoldable Keeps : (W → W) → Type 0
  Keeps f = (w : W) → host.lookup_env j w ≡ some v → host.lookup_env j (f w) ≡ some v

  set_keeps :
      (k x : Bytes) (w : W)
      → host.lookup_env k w ≡ none
      → host.lookup_env j w ≡ some v
      → host.lookup_env j (host.setenv k x w).1 ≡ some v
  set_keeps k x w unset h = elim (Bool-cases (text_eq k j)) [
    | inl e ↦ cc (unset, h, ap (λ i. host.lookup_env i w) (text_eq-eq k j e))
    | inr e ↦ keeping.sets_other k j x w e ∙ h
  ]

  after_set-Keeps :
      (rest : W → Err × W) (o : Err × W)
      → Keeps (λ w. (rest w).1)
      → host.lookup_env j o.1 ≡ some v
      → host.lookup_env j (after_set host rest o).1 ≡ some v
  unfolding after_set Keeps
  after_set-Keeps rest (none, w) k h = k w h
  after_set-Keeps rest (some e, w) k h = h

  set_unless-Keeps :
      (e : Entry) (rest : W → Err × W) (o : Option Bytes) (w : W)
      → host.lookup_env e.key w ≡ o
      → Keeps (λ w. (rest w).1)
      → host.lookup_env j w ≡ some v
      → host.lookup_env j (set_unless host e rest o w).1 ≡ some v
  unfolding set_unless Keeps
  set_unless-Keeps e rest (some x) w eq k h = k w h
  set_unless-Keeps e rest none w eq k h =
      after_set-Keeps rest (host.setenv e.key e.value w) k (set_keeps e.key e.value w eq h)

  set_entries-Keeps : (es : List Entry) → Keeps (λ w. (set_entries host es w).1)
  unfolding set_entries Keeps
  set_entries-Keeps [] w h = h
  set_entries-Keeps (e ∷ es) w h =
      set_unless-Keeps e (set_entries host es) (host.lookup_env e.key w) w refl
        (set_entries-Keeps es) h

  apply_entries-Keeps :
      (path : Bytes) (r : Loaded) (o : Result Error (List Entry))
      → Keeps (λ w. (apply_entries host path r o w).1)
  unfolding apply_entries Keeps
  apply_entries-Keeps path r (err e) w h = h
  apply_entries-Keeps path r (ok es) w h = set_entries-Keeps es w h

  after_open-Keeps :
      (path : Bytes) (r : Loaded) (o : Result (Option Error) ℕ)
      → Keeps (λ w. (after_open host path r o w).1)
  unfolding after_open Keeps
  after_open-Keeps path r (err none) w h = h
  after_open-Keeps path r (err (some e)) w h = h
  after_open-Keeps path r (ok file) w h =
      let (scanned, w1) = host.scan file w in
      let (closed, w2) = host.close_file file w1 in
      apply_entries-Keeps path r (or_error (parse_dotenv host.unquote path scanned) closed) w2
        (keeping.closes file j w1 ∙ keeping.scans file j w ∙ h)

  load_one-Keeps : (path : Bytes) (r : Loaded) → Keeps (λ w. (load_one host path r w).1)
  unfolding load_one Keeps
  load_one-Keeps [] r w h = h
  load_one-Keeps (a ∷ path) r w h =
      let (opened, w') = host.open_file (a ∷ path) w in
      after_open-Keeps (a ∷ path) r opened w' (keeping.opens (a ∷ path) j w ∙ h)

  load_loop-Keeps : (paths : List Bytes) (r : Loaded) → Keeps (λ w. (load_loop host paths r w).1)
  unfolding load_loop Keeps
  load_loop-Keeps [] r w h = h
  load_loop-Keeps (path ∷ paths) r w h =
      load_loop-Keeps paths (load_one host path r w).0 (load_one host path r w).1
        (load_one-Keeps path r w h)

  -- A variable that is set keeps its value through TryLoadDotEnv, whatever the files hold, also where
  -- they cannot be read or set in part only.
  pub try_load_keeps :
      (paths : List Bytes) (w : W)
      → host.lookup_env j w ≡ some v
      → host.lookup_env j (try_load host paths w).1 ≡ some v
  unfolding try_load Keeps
  try_load_keeps paths w h = load_loop-Keeps paths (record { loaded = []; errors = [] }) w h
