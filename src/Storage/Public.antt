-- ===== src/Storage/Public.antt =====
-- Which disk a public path leads to, and what the size limit of a local disk promises.
use chobits.Prelude.{
  ℕ, ◌≡◌, ◌≤◌, ◌∙◌, ap, refl, Bool, true, false, Option, none, some, List, [], ◌∷◌, ◌++◌, Bytes,
  Result, ok, err, arith, length, Option-cases, Bool-cases, inl, inr, ◌⊎◌,
}
use chobits.Int64.{is_positive, pos_part}
use chobits.Text.{cut}
use chobits.Text.Dict.{lookup}
use chobits.Text.Path.{slash, render}
use chobits.Storage.{
  Error, clean_object_path, nonempty_parts, split_disk_path, Disk, Manager, SaveOptions, ObjectInfo,
  disk_name, disk_of, public_disk, open_cleaned, open_path, open_public_path,
}
use chobits.Storage.Safety.{has_slash, all_names}
use chobits.Storage.Safety.Root.{clean_object_path-names}
use chobits.Storage.Local.{
  Files, Tools, Local, limit_of, is_over, choose_path, store, save_at, save_bytes, info_of, in_dir,
}

unfoldable pub with_slash : Bytes → Bytes → Bytes
with_slash name rest = name ++ (slash ∷ rest)

-- How the manager comes from an accepted path to what it replies. A first segment that names a disk
-- is taken off; otherwise the default disk opens the whole path.
pub data Reaches {W : Type 0} (m : Manager W) (p q : Bytes) : Type 0 where
  named :
      (a : ℕ) (name : Bytes) (b : ℕ) (rest : Bytes) (d : Disk W)
      → has_slash (a ∷ name) ≡ false
      → p ≡ with_slash (a ∷ name) (b ∷ rest)
      → lookup (a ∷ name) m.disks ≡ some d
      → d.open_path (b ∷ rest) ≡ ok q
      → Reaches m p q
  whole :
      (d : Disk W)
      → ((a : ℕ) (name : Bytes) (b : ℕ) (rest : Bytes)
          → has_slash (a ∷ name) ≡ false
          → p ≡ with_slash (a ∷ name) (b ∷ rest)
          → lookup (a ∷ name) m.disks ≡ none)
      → lookup m.default_disk m.disks ≡ some d
      → d.open_path p ≡ ok q
      → Reaches m p q

-- The public path is accepted, as names under a slash or under nothing, from which the manager
-- comes to `q`.
pub record Opens {W : Type 0} (m : Manager W) (path q : Bytes) : Type 0 where
  cleaned : Bytes
  accepted : clean_object_path path ≡ ok cleaned
  rooted : Bool
  names : List Bytes
  shape : cleaned ≡ render rooted names
  only_names : all_names names ≡ true
  reached : Reaches m cleaned q

cut-with_slash :
    (name rest : Bytes)
    → has_slash name ≡ false
    → cut slash (with_slash name rest) ≡ some (name, rest)
unfolding cut with_slash has_slash
cut-with_slash [] rest h = refl
cut-with_slash (a ∷ name) rest h = ground (arith, cut-with_slash name rest)

with_slash-cut :
    (s name rest : Bytes)
    → cut slash s ≡ some (name, rest)
    → (s ≡ with_slash name rest) × (has_slash name ≡ false)
unfolding cut with_slash has_slash
with_slash-cut [] name rest h = cc
with_slash-cut (a ∷ s) name rest h = elim (Option-cases (cut slash s)) [
  | inl e ↦ ground arith
  | inr ((before, after), e) ↦ let (eq, plain) = with_slash-cut s before after e in ground arith
]

module _ {W : Type 0} (m : Manager W) where
  public_disk_named :
      (name rest p q : Bytes) (d : Disk W)
      → has_slash name ≡ false
      → p ≡ with_slash name rest
      → (elim (nonempty_parts name rest) as (λ _. Option (Disk W × Bytes)) [
        | none ↦ none
        | some (n, path) ↦ elim (disk_of (some m) n) [ none ↦ none | some d ↦ some (d, path) ]
      ])
        ≡ some (d, q)
      → (x : Bytes) → d.open_path q ≡ ok x
      → Reaches m p x
  unfolding nonempty_parts disk_of
  public_disk_named [] rest p q d plain eq h x o = cc
  public_disk_named (a ∷ name) [] p q d plain eq h x o = cc
  public_disk_named (a ∷ name) (b ∷ rest) p q d plain eq h x o =
      elim (Option-cases (lookup (a ∷ name) m.disks)) [
        | inl e ↦ ground arith
        | inr (d', e) ↦ named a name b rest d' plain eq e (ground arith)
      ]

  -- The first segment names a disk.
  public_disk-Reaches :
      (p path q : Bytes) (d : Disk W)
      → public_disk m p ≡ some (d, path)
      → d.open_path path ≡ ok q
      → Reaches m p q
  unfolding public_disk split_disk_path
  public_disk-Reaches p path q d h o = elim (Option-cases (cut slash p)) [
    | inl e ↦ ground arith
    | inr ((name, rest), e) ↦
        let (eq, plain) = with_slash-cut p name rest e in
        public_disk_named name rest p path d plain eq (ground arith) q o
  ]

  -- The first segment names no disk.
  public_disk-none :
      (p : Bytes) (a : ℕ) (name : Bytes) (b : ℕ) (rest : Bytes)
      → public_disk m p ≡ none
      → has_slash (a ∷ name) ≡ false
      → p ≡ with_slash (a ∷ name) (b ∷ rest)
      → lookup (a ∷ name) m.disks ≡ none
  unfolding public_disk split_disk_path nonempty_parts disk_of
  public_disk-none p a name b rest h plain eq =
      let c : cut slash p ≡ some (a ∷ name, b ∷ rest) =
        ap (cut slash) eq ∙ cut-with_slash (a ∷ name) (b ∷ rest) plain in
      elim (Option-cases (lookup (a ∷ name) m.disks)) [ inl e ↦ e | inr (d, e) ↦ ground arith ]

  open_cleaned-Reaches : (p q : Bytes) → open_cleaned m p ≡ ok q → Reaches m p q
  unfolding open_cleaned open_path disk_of disk_name
  open_cleaned-Reaches p q h = elim (Option-cases (public_disk m p)) [
    | inr ((d, path), e) ↦ public_disk-Reaches p path q d e (ground arith)
    | inl e ↦ elim (Option-cases (lookup m.default_disk m.disks)) [
      | inl l ↦ ground arith
      | inr (d, l) ↦ whole d (λ a name b rest. public_disk-none p a name b rest e) l (ground arith)
    ]
  ]

  cleaned-Opens :
      (path q : Bytes) (r : Result Error Bytes)
      → clean_object_path path ≡ r
      → (elim r as (λ _. Result Error Bytes) [ err e ↦ err e | ok c ↦ open_cleaned m c ]) ≡ ok q
      → Opens m path q
  cleaned-Opens path q (err e) eq h = cc
  cleaned-Opens path q (ok c) eq h =
      let (r, ns, shape, all) = clean_object_path-names path c eq in
      record {
        cleaned = c;
        accepted = eq;
        rooted = r;
        names = ns;
        shape = shape;
        only_names = all;
        reached = open_cleaned-Reaches c q h;
      }

  -- If OpenPublicPath replies no error, then cleanObjectPath has accepted the public path, as names,
  -- none of them "..". If the first of two or more segments names a disk of the manager, then the
  -- reply is that of this disk to the rest; if it names none, or if nothing follows it, then the
  -- reply is that of the default disk to the whole cleaned path.
  pub open_public_path-Opens :
      (path q : Bytes) → open_public_path (some m) path ≡ ok q → Opens m path q
  unfolding open_public_path
  open_public_path-Opens path q h = cleaned-Opens path q (clean_object_path path) refl h

Result-cases : (r : Result Error Bytes) → ((e : Error) × (r ≡ err e)) ⊎ ((a : Bytes) × (r ≡ ok a))
Result-cases (ok a) = inr (a, refl)
Result-cases (err e) = inl (e, refl)

module _ {W : Type 0} (tools : Tools W) (files : Files W) (l : Local) where
  store_size :
      (path bytes kind : Bytes) (overwrite : Bool) (w : W) (info : ObjectInfo)
      → (store tools files l path bytes kind overwrite w).0 ≡ ok info
      → info.size ≡ length bytes
  unfolding store info_of
  store_size path bytes kind overwrite w info h = ground arith

  save_at_size :
      (bytes kind : Bytes) (options : SaveOptions) (r : Result Error Bytes) (w : W)
      (info : ObjectInfo)
      → (save_at tools files l bytes kind options r w).0 ≡ ok info
      → info.size ≡ length bytes
  unfolding save_at
  save_at_size bytes kind options (err e) w info h = cc
  save_at_size bytes kind options (ok chosen) w info h =
      elim (Result-cases (clean_object_path (in_dir tools files l options.dir chosen))) [
        | inl (e, eq) ↦ ground arith
        | inr (p, eq) ↦ store_size p bytes kind options.overwrite w info (ground arith)
      ]

  -- If SaveBytes of a local disk succeeds, and there is a limit, which is the positive limit of the
  -- options or else the positive limit of the disk, then the size it reports is the number of bytes
  -- that it was given, and is within the limit.
  pub save_bytes-limit :
      (bytes kind : Bytes) (options : SaveOptions) (w : W) (info : ObjectInfo)
      → is_positive (limit_of l options.max_bytes) ≡ true
      → (save_bytes tools files l bytes kind options w).0 ≡ ok info
      → (info.size ≡ length bytes) × (info.size ≤ pos_part (limit_of l options.max_bytes))
  unfolding save_bytes is_over
  save_bytes-limit bytes kind options w info limited h =
      elim (Bool-cases (is_over (limit_of l options.max_bytes) (length bytes))) [
        | inl over ↦ ground arith
        | inr fits ↦
            let (chosen, w') = choose_path tools files l options w in
            let size = save_at_size bytes kind options chosen w' info (ground arith) in
            (size, ground arith)
      ]
