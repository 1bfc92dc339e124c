-- ===== src/Server/Overlay/Settings.antt =====
-- What an edit makes of the settings.
use text.Mathlib.TextEquality.{eq_iff}
use raspi_cctv_tcp_server.Prelude.{
  ℕ, ◌≤◌, Option, none, some, Bool, true, false, not, ◌||◌, String, Text, ℤ, pos, negsuc, [], codes,
  ◌≡◌, ◌≢◌, arith, text_eq, is_int, is_neg, exceeds, Option-cases, Bool-cases, inl, inr, ◌⊎◌,
  if◌then◌else◌, ◌∙◌, ◌++◌, ◌∷◌, append-nil, sym, ap,
}
use raspi_cctv_tcp_server.Stream.{Stream, read_word, read_int}
use raspi_cctv_tcp_server.Server.Env.{Env}
use raspi_cctv_tcp_server.Server.Overlay.{
  refuse, edited, edit, edit_flag, edit_mode, edit_of, edit_sharp, edit_sharpness, known_mode,
}
use raspi_cctv_tcp_server.Server.Overlay.Contract.{JsonContract}

module _ (E : Env) (json : JsonContract E.json) where
  open json use {field}

  -- What a flag's edit leaves: the flag is true or false, and every other field is as it was.
  abbrev pub SetsFlag : String → E.json.Value → E.json.Value → Type 0
  SetsFlag key c c' =
      (b : Bool) × (field c' key ≡ some (E.json.bool b))
      × ((j : String) → key ≢ j → field c' j ≡ field c j)

  edit_of_edited :
      (o : Option E.json.Value) (c' : E.json.Value) → edit_of E o ≡ edited c' → o ≡ some c'
  edit_of_edited o c' h = ground arith

  edit_flag_lem :
      (stale : ℤ) (s : Stream) (key : String) (c c' : E.json.Value)
      → edit_flag E stale s key c ≡ edited c'
      → SetsFlag key c c'
  unfolding edit_flag
  edit_flag_lem stale s key c c' h =
      let r = read_int stale s in
      let b : Bool = is_int r.0 1 in
      let set : E.json.set c key (E.json.bool b) ≡ some c' = ground arith in
      (b, json.field-set c c' key _ set, λ j ne. json.field-set_ne c c' key j _ set ne)

  -- What an edit makes is an object: it has a field.
  abbrev pub HasField : E.json.Value → Type 0
  HasField c = (k : String) × (x : E.json.Value) × (field c k ≡ some x)

  abbrev LevelFits : Bool → Option E.json.Value → Type 0
  LevelFits true o = (n : ℕ) × (n ≤ 100) × (o ≡ some (E.json.int (pos n)))
  LevelFits false o = o ≡ none

  -- Settings in which the sharpness level stands beside the mode "sharp" and no other, from 0 to 100.
  abbrev pub SettledAs : Text → E.json.Value → Type 0
  SettledAs m c =
      (known_mode m ≡ true)
      × (field c "mode" ≡ some (E.json.string m))
      × LevelFits (text_eq m (codes "sharp")) (field c "sharpness_level")

  abbrev pub IsSettled : E.json.Value → Type 0
  IsSettled c = (m : Text) × SettledAs m c

  mode_ne : ◌≢◌ {A = String} "sharpness_level" "mode"
  mode_ne = ground (arith, eq_iff "sharpness_level" "mode")

  edit_sharpness_lem :
      (stale : ℤ) (s : Stream) (c c' : E.json.Value)
      → edit_sharpness E stale s c ≡ edited c'
      → (n : ℕ) × (n ≤ 100) × (E.json.set c "sharpness_level" (E.json.int (pos n)) ≡ some c')
  edit_sharpness_lem stale s c c' h = at_value (read_int stale s).0 (read_int stale s).1.failed h
    where
      at_value :
          (v : ℤ) (bad : Bool)
          → (if bad || is_neg v || exceeds v 100
              then refuse 400 "Invalid sharpness level (0~100)"
              else edit_of E (E.json.set c "sharpness_level" (E.json.int v)))
            ≡ edited c'
          → (n : ℕ) × (n ≤ 100) × (E.json.set c "sharpness_level" (E.json.int (pos n)) ≡ some c')
      at_value (pos n) bad h = (n, ground arith, ground arith)
      at_value (negsuc n) true h = cc
      at_value (negsuc n) false h = cc

  -- After `config["mode"] = mode_val`, the level is set or erased by the mode.
  edit_sharp_lem :
      (stale : ℤ) (s : Stream) (m : Text) (c c1 c' : E.json.Value)
      → known_mode m ≡ true
      → E.json.set c "mode" (E.json.string m) ≡ some c1
      → edit_sharp E stale s m (some c1) ≡ edited c'
      → SettledAs m c'
  edit_sharp_lem stale s m c c1 c' known set h = elim (Bool-cases (text_eq m (codes "sharp"))) [
    | inl sharp ↦
        let (n, small, level) = edit_sharpness_lem stale s c1 c' (rw sharp at h) in
        (
          known,
          json.field-set_ne c1 c' _ "mode" _ level mode_ne ∙ json.field-set c c1 "mode" _ set,
          rw sharp (n, small, json.field-set c1 c' _ _ level),
        )
    | inr other ↦
        let gone = edit_of_edited (E.json.erase c1 "sharpness_level") c' (rw other at h) in
        (
          known,
          json.field-erase_ne c1 c' _ "mode" gone mode_ne ∙ json.field-set c c1 "mode" _ set,
          rw other (json.field-erase c1 c' _ gone),
        )
  ]

  edit_mode_lem :
      (stale : ℤ) (s : Stream) (c c' : E.json.Value)
      → edit_mode E stale s c ≡ edited c'
      → IsSettled c'
  unfolding edit_mode
  edit_mode_lem stale s c c' h =
      let r = read_word [] s in
      elim (Bool-cases (r.1.failed || not (known_mode r.0))) [
        | inl bad ↦ absurd (cc (rw bad at h))
        | inr good ↦ elim (Option-cases (E.json.set c "mode" (E.json.string r.0))) [
          | inl failed ↦ absurd (cc (rw (good, failed) at h))
          | inr (c1, set) ↦
              (r.0, edit_sharp_lem stale r.1 r.0 c c1 c' (ground arith) set (rw (good, set) at h))
        ]
      ]

  -- A flag's edit concerns another field, and settles nothing and unsettles nothing.
  flag-IsSettled :
      (key : String) (c c' : E.json.Value)
      → key ≢ "mode"
      → key ≢ "sharpness_level"
      → SetsFlag key c c'
      → IsSettled c
      → IsSettled c'
  flag-IsSettled key c c' n1 n2 (b, set, same) (m, (known, mode, level)) =
      (m, (known, same "mode" n1 ∙ mode, rw (same "sharpness_level" n2) level))

  bbox_ne : (◌≢◌ {A = String} "show_bbox" "mode") × (◌≢◌ {A = String} "show_bbox" "sharpness_level")
  bbox_ne = (
    ground (arith, eq_iff "show_bbox" "mode"),
    ground (arith, eq_iff "show_bbox" "sharpness_level"),
  )

  timestamp_ne :
      (◌≢◌ {A = String} "show_timestamp" "mode")
      × (◌≢◌ {A = String} "show_timestamp" "sharpness_level")
  timestamp_ne = (
    ground (arith, eq_iff "show_timestamp" "mode"),
    ground (arith, eq_iff "show_timestamp" "sharpness_level"),
  )

  edit_cases :
      (stale menu_type : ℤ) (s : Stream) (c c' : E.json.Value)
      → edit E stale menu_type s c ≡ edited c'
      → (edit_flag E stale s "show_bbox" c ≡ edited c')
        ⊎ (edit_flag E stale s "show_timestamp" c ≡ edited c')
        ⊎ (edit_mode E stale s c ≡ edited c')
  unfolding edit
  edit_cases stale menu_type s c c' h = ground arith

  -- If the settings have a known mode, and a sharpness level, from 0 to 100, exactly when the mode
  -- is "sharp", then so have the settings after any edit that is accepted.
  pub edit-IsSettled :
      (stale menu_type : ℤ) (s : Stream) (c c' : E.json.Value)
      → edit E stale menu_type s c ≡ edited c'
      → IsSettled c
      → IsSettled c'
  edit-IsSettled stale menu_type s c c' h settled = settles (edit_cases stale menu_type s c c' h)
    where
      settles :
          (edit_flag E stale s "show_bbox" c ≡ edited c')
            ⊎ (edit_flag E stale s "show_timestamp" c ≡ edited c')
            ⊎ (edit_mode E stale s c ≡ edited c')
          → IsSettled c'
      settles (inl bbox) =
          flag-IsSettled "show_bbox" c c' bbox_ne.0 bbox_ne.1
            (edit_flag_lem stale s "show_bbox" c c' bbox) settled
      settles (inr (inl stamp)) =
          flag-IsSettled "show_timestamp" c c' timestamp_ne.0 timestamp_ne.1
            (edit_flag_lem stale s "show_timestamp" c c' stamp) settled
      settles (inr (inr mode)) = edit_mode_lem stale s c c' mode

  pub edit-HasField :
      (stale menu_type : ℤ) (s : Stream) (c c' : E.json.Value)
      → edit E stale menu_type s c ≡ edited c'
      → HasField c'
  edit-HasField stale menu_type s c c' h = has (edit_cases stale menu_type s c c' h)
    where
      has :
          (edit_flag E stale s "show_bbox" c ≡ edited c')
            ⊎ (edit_flag E stale s "show_timestamp" c ≡ edited c')
            ⊎ (edit_mode E stale s c ≡ edited c')
          → HasField c'
      has (inl h) = let (b, set, same) = edit_flag_lem stale s "show_bbox" c c' h in (_, _, set)
      has (inr (inl h)) =
          let (b, set, same) = edit_flag_lem stale s "show_timestamp" c c' h in (_, _, set)
      has (inr (inr h)) =
          let (m, (known, mode, level)) = edit_mode_lem stale s c c' h in (_, _, mode)

  -- What a torn write left is not parsed, and a whole one is.
  pub written_parses :
      (c : E.json.Value) (t u r : Text)
      → HasField c
      → E.json.dump c ≡ some t
      → u ++ r ≡ t
      → (E.json.parse u ≡ none) ⊎ (u ≡ t)
  written_parses c t u [] has e p = inr (sym (append-nil u) ∙ p)
  written_parses c t u (b ∷ bs) (k, x, f) e p =
      inl (json.parse-torn c x k u (b ∷ bs) f (e ∙ ap some (sym p)) (λ q. cc))
