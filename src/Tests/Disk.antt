-- ===== src/Tests/Disk.antt =====
-- A file system in memory, which meets its contract.
use raspi_cctv_tcp_server.Prelude.{
  Option, none, some, true, false, not, List, [], ◌∷◌, ◌++◌, Text, ◌≡◌, ◌≢◌, refl, arith, text_eq,
  text_eq_iff, text_eq_refl, c_str, subst, append-nil, ℕ, ◌^◌, ◌-◌, ◌||◌, Bool, codes, Bool-cases,
  inl, inr, is_none, if◌then◌else◌,
}
use raspi_cctv_tcp_server.Server.Env.{Files}
use raspi_cctv_tcp_server.Server.Overlay.Contract.{FilesContract}

abbrev Disk : Type 0
Disk = List (Text × Text)

abbrev read : Disk → Text → Option Text
read [] p = none
read ((q, t) ∷ d) p = if text_eq q p then some t else read d p

abbrev or_empty : Option Text → Text
or_empty none = []
or_empty (some t) = t

abbrev remove : Disk → Text → Disk
remove [] p = []
remove ((q, t) ∷ d) p = let rest = remove d p in if text_eq q p then rest else (q, t) ∷ rest

-- The one directory, which is always there.
abbrev is_dir : Text → Bool
is_dir p = text_eq (c_str p) (codes "images")

abbrev read_file : Disk → Text → Option Text
read_file d p = if is_dir p then none else read d (c_str p)

abbrev pub disks : Files
disks = record {
  Disk = Disk;
  read = read_file;
  unreadable = λ d p. if is_dir p then some (2 ^ 63 - 1, []) else none;
  exists = λ d p. some (is_dir p || not (is_none (read_file d p)));
  create_directory = λ d p. some d;
  create = λ d p. if is_dir p then none else some ((c_str p, []) ∷ d);
  append = λ d p t. (c_str p, or_empty (read d (c_str p)) ++ t) ∷ d;
  closes_well = λ d p. true;
  remove = λ d p. some (remove d (c_str p));
}

ne→false : (p q : Text) → p ≢ q → text_eq p q ≡ false
ne→false p q h = ground (arith, text_eq_iff p q)

read-remove : (d : Disk) (p : Text) → read (remove d p) p ≡ none
read-remove [] p = refl
read-remove ((q, t) ∷ d) p = ground (arith, read-remove d p)

read-remove_ne : (d : Disk) (p q : Text) → p ≢ q → read (remove d p) q ≡ read d q
read-remove_ne [] p q ne = refl
read-remove_ne ((r, t) ∷ d) p q ne =
    ground (arith, read-remove_ne d p q ne, text_eq_iff r p, text_eq_iff r q)

read_as_file :
    (d : Disk) (p s : Text)
    → read_file d p ≡ some s
    → (is_dir p ≡ false) × (read d (c_str p) ≡ some s)
read_as_file d p s h = elim (Bool-cases (is_dir p)) [
  | inl dir ↦ absurd (cc (rw dir at h))
  | inr file ↦ (file, rw file at h)
]

same_file :
    (d d' : Disk) (q : Text) → read d' (c_str q) ≡ read d (c_str q) → read_file d' q ≡ read_file d q
same_file d d' q h = rw h refl

made :
    (d d' : Disk) (p : Text)
    → disks.create d p ≡ some d'
    → (is_dir p ≡ false) × (d' ≡ (c_str p, []) ∷ d)
made d d' p h = elim (Bool-cases (is_dir p)) [
  | inl dir ↦ absurd (cc (rw dir at h))
  | inr file ↦ let e = rw file at h in (file, cc)
]

read-create : (d d' : Disk) (p : Text) → disks.create d p ≡ some d' → read_file d' p ≡ some []
read-create d d' p h = let (file, e) = made d d' p h in rw (e, file, text_eq_refl (c_str p)) refl

written :
    (d : Disk) (p s t : Text)
    → read_file d p ≡ some s
    → read_file (disks.append d p t) p ≡ some (s ++ t)
written d p s t h =
    let (file, e) = read_as_file d p s h in rw (file, text_eq_refl (c_str p), e) refl

gone : (d : Disk) (p : Text) → read_file (remove d (c_str p)) p ≡ none
gone d p = elim (Bool-cases (is_dir p)) [
  | inl dir ↦ rw dir refl
  | inr file ↦ rw (file, read-remove d (c_str p)) refl
]

absent : (d : Disk) (p : Text) → disks.exists d p ≡ some false → read_file d p ≡ none
absent d p h = ground arith

dir_unread :
    (d : Disk) (p : Text) (n : ℕ) (t : Text)
    → disks.unreadable d p ≡ some (n, t)
    → read_file d p ≡ none
dir_unread d p n t h = elim (Bool-cases (is_dir p)) [
  | inl dir ↦ rw dir refl
  | inr file ↦ absurd (cc (rw file at h))
]

pub disks-FilesContract : FilesContract disks
disks-FilesContract = record {
  read-create = read-create;
  read-create_ne = λ d d' p q h ne.
      let (file, e) = made d d' p h in
      same_file d d' q (rw (e, ne→false (c_str p) (c_str q) ne) refl);
  read-append = λ d p s t h. (t, [], append-nil t, written d p s t h);
  read-append_good = λ d p s t g h. written d p s t h;
  closes_well-append = λ d p t g. refl;
  read-append_ne =
      λ d p q t ne. same_file d (disks.append d p t) q (rw (ne→false (c_str p) (c_str q) ne) refl);
  read-remove = λ d d' p h.
      let e : remove d (c_str p) ≡ d' = cc in subst (λ x. read_file x p ≡ none) e (gone d p);
  read-remove_ne = λ d d' p q h ne.
      let e : remove d (c_str p) ≡ d' = cc in
      subst (λ x. read_file x q ≡ read_file d q) e
        (same_file d (remove d (c_str p)) q (read-remove_ne d (c_str p) (c_str q) ne));
  read-create_directory = λ d d' p q h. let e : d ≡ d' = cc in rw e refl;
  exists_read = absent;
  unreadable_read = dir_unread;
}
