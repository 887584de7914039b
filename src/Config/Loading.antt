-- ===== src/Config/Loading.antt =====
-- What LoadYAML replies.
use chobits.Prelude.{◌≡◌, refl, subst, true, Option, none, some, List, Bytes, Result, ok, err}
use chobits.Config.Files.{
  Error, Err, Options, default_options, apply_options, find_file, Loader, override, defaulted,
  then_do, accept, validated, finish, decode_file, load_used, load_yaml,
}

-- What holds of the result, if it is not an error.
unfoldable pub OnOk : {A : Type 0} → (A → Type 0) → Result Error A → Type 0
OnOk P (ok a) = P a
OnOk P (err e) = true ≡ true

-- A target that has passed Validate, if it has one.
unfoldable pub IsValid : {T : Type 0} → Option (T → Err) → T → Type 0
IsValid none t = true ≡ true
IsValid (some validate) t = validate t ≡ none

module _ {W T : Type 0} (loader : Loader W T) where
  -- The target is valid, and it is what the variables of the environment make of one that has its
  -- defaults, or such a one if they are left aside.
  unfoldable pub Finished : Options → W → T → Type 0
  Finished o w t =
      ((s : T) × (override loader o w (defaulted loader s) ≡ ok t)) × IsValid loader.validate t

  then_do-OnOk :
      {A B : Type 0} (Q : B → Type 0) (r : Result Error A) (next : A → Result Error B)
      → ((a : A) → r ≡ ok a → OnOk Q (next a))
      → OnOk Q (then_do loader r next)
  unfolding then_do OnOk
  then_do-OnOk Q (ok a) next h = h a refl
  then_do-OnOk Q (err e) next h = refl

  accept-OnOk : (Q : T → Type 0) (t : T) (e : Err) → (e ≡ none → Q t) → OnOk Q (accept loader t e)
  unfolding accept OnOk
  accept-OnOk Q t none h = h refl
  accept-OnOk Q t (some e) h = refl

  validated-OnOk :
      (Q : T → Type 0) (v : Option (T → Err)) (t : T)
      → (IsValid v t → Q t)
      → OnOk Q (validated loader v t)
  unfolding validated IsValid OnOk
  validated-OnOk Q none t h = h refl
  validated-OnOk Q (some f) t h = accept-OnOk Q t (f t) h

  finish-OnOk : (o : Options) (w : W) (t : T) → OnOk (Finished o w) (finish loader o w t)
  unfolding finish Finished
  finish-OnOk o w t = then_do-OnOk (Finished o w) (override loader o w t) _ (λ t1 e1.
      then_do-OnOk (Finished o w) (override loader o w (defaulted loader t1))
        (validated loader loader.validate)
        (λ t2 e2. validated-OnOk (Finished o w) loader.validate t2 (λ valid. ((t1, e2), valid))))

  -- If LoadYAML of a target replies a path and a target, then FindFile replied the path, after the
  -- .env files were tried, the target is valid, and what the variables of the environment set comes
  -- after the defaults.
  pub load_yaml-OnOk :
      (path : Bytes) (t : T) (opts : List (Options → Options)) (w : W)
      → OnOk
          (λ r.
            (find_file
                (loader.stat
                  (loader.try_dot_env (apply_options opts default_options).dot_env_paths w))
                path
                (apply_options opts default_options).search_names
                (apply_options opts default_options).search_dirs
              ≡ ok r.0)
            × Finished
                (apply_options opts default_options)
                (loader.try_dot_env (apply_options opts default_options).dot_env_paths w)
                r.1)
          (load_yaml loader path (some t) opts w).0
  unfolding load_yaml load_used OnOk
  load_yaml-OnOk path t opts w =
      let o = apply_options opts default_options in
      let w1 = loader.try_dot_env o.dot_env_paths w in
      let Q : Bytes × T → Type 0 = λ r.
        (find_file (loader.stat w1) path o.search_names o.search_dirs ≡ ok r.0)
        × Finished o w1 r.1 in
      then_do-OnOk Q (find_file (loader.stat w1) path o.search_names o.search_dirs)
        (load_used loader o w1 t)
        (λ used found. then_do-OnOk Q (loader.read_file used w1) _ (λ bytes e1.
          then_do-OnOk Q (decode_file loader used t bytes) _ (λ t1 e2.
            then_do-OnOk Q (finish loader o w1 t1) _
              (λ t2 e3. (found, subst (OnOk (Finished o w1)) e3 (finish-OnOk o w1 t1))))))
