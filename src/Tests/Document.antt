-- ===== src/Tests/Document.antt =====
-- Json values in memory, which meet the contract of the json library: settings with the four fields
-- that the camera's files have, and other values by their texts.
use text.Mathlib.Text.{◌==◌ as str_eq}
use text.Mathlib.TextEquality.{eq_iff}
use raspi_cctv_tcp_server.Prelude.{
  ℕ, zero, suc, length, length-append, ◌==◌, ==_refl, ◌≤◌, Option, none, some, Bool, true, false,
  List, [], ◌∷◌, ◌++◌, String, Text, ℤ, pos, negsuc, codes, ◌≡◌, ◌≢◌, refl, arith, ap,
  if◌then◌else◌, Option-cases, inl, inr, sym, ◌∙◌, subst,
}
use raspi_cctv_tcp_server.Server.Env.{Json}
use raspi_cctv_tcp_server.Server.Overlay.Contract.{JsonContract}

pub data Value : Type 0 where
  null : Value
  str : Text → Value
  int : ℤ → Value
  bool : Bool → Value
  -- arrays, objects and numbers with a fraction, by their texts
  raw : Text → Value
  settings : Option Text → Option ℤ → Option Bool → Option Bool → Value

abbrev bool_code : Option Bool → ℕ
bool_code none = 0
bool_code (some false) = 1
bool_code (some true) = 2

abbrev int_codes : Option ℤ → Text
int_codes none = 0 ∷ 0 ∷ []
int_codes (some (pos n)) = 1 ∷ n ∷ []
int_codes (some (negsuc n)) = 2 ∷ n ∷ []

-- a text behind its length
abbrev text_codes : Option Text → Text
text_codes none = 0 ∷ []
text_codes (some t) = suc (length t) ∷ t

abbrev show : Value → Text
show null = 0 ∷ []
show (str t) = 1 ∷ t
show (int i) = 2 ∷ int_codes (some i)
show (bool b) = 3 ∷ bool_code (some b) ∷ []
show (raw t) = 4 ∷ t
show (settings mode level bbox stamp) =
    5 ∷ bool_code bbox ∷ bool_code stamp ∷ int_codes level ++ text_codes mode

abbrev bool_of : ℕ → Option Bool
bool_of zero = none
bool_of (suc zero) = some false
bool_of (suc (suc n)) = some true

abbrev int_of : ℕ → ℕ → Option ℤ
int_of zero n = none
int_of (suc zero) n = some (pos n)
int_of (suc (suc k)) n = some (negsuc n)

-- `none` if the text is not as long as its length says
abbrev text_of : Text → Option (Option Text)
text_of [] = none
text_of (zero ∷ t) = some none
text_of (suc n ∷ t) = if length t == n then some (some t) else none

abbrev from_option : {A : Type 0} → (A → Value) → Option A → Value
from_option f none = null
from_option f (some a) = f a

abbrev parse_int : Text → Option Value
parse_int (k ∷ n ∷ []) = some (from_option int (int_of k n))
parse_int _ = none

abbrev parse_bool : Text → Option Value
parse_bool (b ∷ []) = some (from_option bool (bool_of b))
parse_bool _ = none

abbrev with_mode : Option (Option Text) → Option ℤ → Option Bool → Option Bool → Option Value
with_mode none level bbox stamp = none
with_mode (some m) level bbox stamp = some (settings m level bbox stamp)

abbrev parse_settings : Text → Option Value
parse_settings (b ∷ s ∷ k ∷ n ∷ m) = with_mode (text_of m) (int_of k n) (bool_of b) (bool_of s)
parse_settings _ = none

abbrev parse_tagged : ℕ → Text → Option Value
parse_tagged zero t = some null
parse_tagged (suc zero) t = some (str t)
parse_tagged (suc (suc zero)) t = parse_int t
parse_tagged (suc (suc (suc zero))) t = parse_bool t
parse_tagged (suc (suc (suc (suc zero)))) t = some (raw t)
parse_tagged _ t = parse_settings t

abbrev parse : Text → Option Value
parse [] = none
parse (tag ∷ t) = parse_tagged tag t

parse-show : (v : Value) → parse (show v) ≡ some v
parse-show null = refl
parse-show (str t) = refl
parse-show (int (pos n)) = refl
parse-show (int (negsuc n)) = refl
parse-show (bool true) = refl
parse-show (bool false) = refl
parse-show (raw t) = refl
parse-show (settings mode level bbox stamp) = whole level
  where
    texts : (o : Option Text) → text_of (text_codes o) ≡ some o
    texts none = refl
    texts (some t) = rw (==_refl (length t)) refl

    bools : (o : Option Bool) → bool_of (bool_code o) ≡ o
    bools none = refl
    bools (some false) = refl
    bools (some true) = refl

    whole :
        (o : Option ℤ)
        → parse (show (settings mode o bbox stamp)) ≡ some (settings mode o bbox stamp)
    whole none = rw (texts mode, bools bbox, bools stamp) refl
    whole (some (pos n)) = rw (texts mode, bools bbox, bools stamp) refl
    whole (some (negsuc n)) = rw (texts mode, bools bbox, bools stamp) refl

-- A text that lacks its end is not read.
torn_text : (m : Option Text) (u r : Text) → u ++ r ≡ text_codes m → r ≢ [] → text_of u ≡ none
torn_text m [] r e ne = refl
torn_text none (c ∷ u) r e ne = absurd (ne (rest u r (tail e)))
  where
    tail : c ∷ u ++ r ≡ 0 ∷ [] → u ++ r ≡ []
    tail h = cc

    rest : (u r : Text) → u ++ r ≡ [] → r ≡ []
    rest [] r h = h
    rest (c ∷ u) r h = cc
torn_text (some t) (c ∷ u) r e ne = first c (cc) (cc)
  where
    longer : (r : Text) → r ≢ [] → 1 ≤ length r
    longer [] ne = absurd (ne refl)
    longer (b ∷ bs) ne = omega arith

    first : (c : ℕ) → c ≡ suc (length t) → u ++ r ≡ t → text_of (c ∷ u) ≡ none
    first zero h k = absurd (omega (arith, h))
    first (suc n) h k =
        let size = length-append u r in
        let more = longer r ne in
        let short : (length u == n) ≡ false = ground (arith, h, size, ap length k, more) in
        rw short refl

torn_settings :
    (m : Option Text) (l : Option ℤ) (b s : Option Bool) (u r : Text)
    → u ++ r ≡ show (settings m l b s)
    → r ≢ []
    → parse u ≡ none
torn_settings m l b s [] r e ne = refl
torn_settings m l b s (c0 ∷ []) r e ne = let h : c0 ≡ 5 = cc in rw h refl
torn_settings m l b s (c0 ∷ c1 ∷ []) r e ne = let h : c0 ≡ 5 = cc in rw h refl
torn_settings m l b s (c0 ∷ c1 ∷ c2 ∷ []) r e ne = let h : c0 ≡ 5 = cc in rw h refl
torn_settings m l b s (c0 ∷ c1 ∷ c2 ∷ c3 ∷ []) r e ne = let h : c0 ≡ 5 = cc in rw h refl
torn_settings m l b s (c0 ∷ c1 ∷ c2 ∷ c3 ∷ c4 ∷ u) r e ne =
    let h : c0 ≡ 5 = cc in rw (h, torn_text m u r (tail l e) ne) refl
  where
    tail :
        (l : Option ℤ)
        → c0 ∷ c1 ∷ c2 ∷ c3 ∷ c4 ∷ u ++ r ≡ show (settings m l b s)
        → u ++ r ≡ text_codes m
    tail none e = cc
    tail (some (pos n)) e = cc
    tail (some (negsuc n)) e = cc

pub data Slot : Type 0 where
  mode level bbox stamp : Slot

abbrev slot : String → Option Slot
slot k =
    if str_eq k "mode"
    then some mode
    else if str_eq k "sharpness_level"
    then some level
    else if str_eq k "show_bbox"
    then some bbox
    else if str_eq k "show_timestamp"
    then some stamp
    else none

abbrev slot_name : Slot → String
slot_name mode = "mode"
slot_name level = "sharpness_level"
slot_name bbox = "show_bbox"
slot_name stamp = "show_timestamp"

slot_lem : (k : String) (s : Slot) → slot k ≡ some s → k ≡ slot_name s
slot_lem k s h = ground (
  arith,
  eq_iff k "mode",
  eq_iff k "sharpness_level",
  eq_iff k "show_bbox",
  eq_iff k "show_timestamp",
)

abbrev with_value : {A : Type 0} → (A → Value) → Option A → Option Value
with_value f none = none
with_value f (some a) = some (f a)

abbrev get : Value → Slot → Option Value
get (settings m l b s) mode = with_value str m
get (settings m l b s) level = with_value int l
get (settings m l b s) bbox = with_value bool b
get (settings m l b s) stamp = with_value bool s
get _ _ = none

abbrev put : Value → Slot → Value → Option Value
put (settings m l b s) mode (str t) = some (settings (some t) l b s)
put (settings m l b s) level (int i) = some (settings m (some i) b s)
put (settings m l b s) bbox (bool x) = some (settings m l (some x) s)
put (settings m l b s) stamp (bool x) = some (settings m l b (some x))
put _ _ _ = none

abbrev clear : Value → Slot → Option Value
clear (settings m l b s) mode = some (settings none l b s)
clear (settings m l b s) level = some (settings m none b s)
clear (settings m l b s) bbox = some (settings m l none s)
clear (settings m l b s) stamp = some (settings m l b none)
clear _ _ = none

put-get : (v v' x : Value) (s : Slot) → put v s x ≡ some v' → get v' s ≡ some x
put-get v v' x s h = ground arith

put-get_ne : (v v' x : Value) (s t : Slot) → put v s x ≡ some v' → s ≢ t → get v' t ≡ get v t
put-get_ne v v' x s t h ne = ground arith

clear-get : (v v' : Value) (s : Slot) → clear v s ≡ some v' → get v' s ≡ none
clear-get v v' s h = ground arith

clear-get_ne : (v v' : Value) (s t : Slot) → clear v s ≡ some v' → s ≢ t → get v' t ≡ get v t
clear-get_ne v v' s t h ne = ground arith

abbrev at_slot : {A : Type 0} → (Slot → Option A) → Option Slot → Option A
at_slot f none = none
at_slot f (some s) = f s

abbrev field_of : Value → String → Option Value
field_of v k = at_slot (get v) (slot k)

abbrev set_field : Value → String → Value → Option Value
set_field v k x = at_slot (λ s. put v s x) (slot k)

abbrev erase_field : Value → String → Option Value
erase_field v k = at_slot (clear v) (slot k)

-- A change of one slot is not seen in the field of another name.
other_field :
    (v v' : Value) (k j : String) (s : Slot)
    → slot k ≡ some s
    → k ≢ j
    → ((t : Slot) → s ≢ t → get v' t ≡ get v t)
    → field_of v' j ≡ field_of v j
other_field v v' k j s e ne same = elim (Option-cases (slot j)) [
  | inl none_j ↦ rw none_j refl
  | inr (t, e') ↦
      rw e' (same t (λ st. ne (slot_lem k s e ∙ ap slot_name st ∙ sym (slot_lem j t e'))))
]

no_field :
    (v : Value) (k : String) (x : Value) → ((s : Slot) → get v s ≡ none) → field_of v k ≢ some x
no_field v k x h = at_case (slot k)
  where
    at_case : (o : Option Slot) → at_slot (get v) o ≢ some x
    at_case none e = cc
    at_case (some s) e = let n = h s in cc

set_field_lem :
    (v v' : Value) (k : String) (x : Value)
    → set_field v k x ≡ some v'
    → (s : Slot) × (slot k ≡ some s) × (put v s x ≡ some v')
set_field_lem v v' k x h = at_case (slot k) refl h
  where
    at_case :
        (o : Option Slot)
        → slot k ≡ o
        → at_slot (λ s. put v s x) o ≡ some v'
        → (s : Slot) × (slot k ≡ some s) × (put v s x ≡ some v')
    at_case none e h = cc
    at_case (some s) e h = (s, e, h)

erase_field_lem :
    (v v' : Value) (k : String)
    → erase_field v k ≡ some v'
    → (s : Slot) × (slot k ≡ some s) × (clear v s ≡ some v')
erase_field_lem v v' k h = at_case (slot k) refl h
  where
    at_case :
        (o : Option Slot)
        → slot k ≡ o
        → at_slot (clear v) o ≡ some v'
        → (s : Slot) × (slot k ≡ some s) × (clear v s ≡ some v')
    at_case none e h = cc
    at_case (some s) e h = (s, e, h)

torn :
    (v x : Value) (k : String) (u r : Text)
    → field_of v k ≡ some x
    → some (show v) ≡ some (u ++ r)
    → r ≢ []
    → parse u ≡ none
torn (settings m l b s) x k u r f e ne = torn_settings m l b s u r (cc) ne
torn null x k u r f e ne = absurd (no_field null k x (λ s. refl) f)
torn (str t) x k u r f e ne = absurd (no_field (str t) k x (λ s. refl) f)
torn (int i) x k u r f e ne = absurd (no_field (int i) k x (λ s. refl) f)
torn (bool b) x k u r f e ne = absurd (no_field (bool b) k x (λ s. refl) f)
torn (raw t) x k u r f e ne = absurd (no_field (raw t) k x (λ s. refl) f)

-- The texts of the parts, one behind the other.
abbrev show_all : List Value → Text
show_all [] = []
show_all (v ∷ vs) = show v ++ show_all vs

abbrev show_fields : List (String × Value) → Text
show_fields [] = []
show_fields ((k, v) ∷ fs) = codes k ++ show v ++ show_fields fs

abbrev pub documents : Json ℕ
documents = record {
  Value = Value;
  parse = parse;
  dump = λ v. some (show v);
  null = null;
  string = str;
  int = int;
  bool = bool;
  float = λ x. raw (x ∷ []);
  array = λ vs. raw (show_all vs);
  object = λ fs. raw (show_fields fs);
  set = set_field;
  erase = erase_field;
}

pub documents-JsonContract : JsonContract documents
documents-JsonContract = record {
  parse-dump = λ v t h. let e : show v ≡ t = cc in subst (λ u. parse u ≡ some v) e (parse-show v);
  field = field_of;
  field-set = λ v v' k x h. let (s, e, p) = set_field_lem v v' k x h in rw e (put-get v v' x s p);
  field-set_ne = λ v v' k j x h ne.
      let (s, e, p) = set_field_lem v v' k x h in
      other_field v v' k j s e ne (λ t. put-get_ne v v' x s t p);
  field-erase = λ v v' k h. let (s, e, p) = erase_field_lem v v' k h in rw e (clear-get v v' s p);
  field-erase_ne = λ v v' k j h ne.
      let (s, e, p) = erase_field_lem v v' k h in
      other_field v v' k j s e ne (λ t. clear-get_ne v v' s t p);
  parse-torn = torn;
  string_injective = λ s t h. ground arith;
}

pub documents-settings :
    (m : Text) (l : ℤ) (b s : Option Bool)
    → (documents-JsonContract.field (settings (some m) (some l) b s) "mode" ≡ some (str m))
      × (documents-JsonContract.field (settings (some m) (some l) b s) "sharpness_level"
          ≡ some (int l))
unfolding documents-JsonContract
documents-settings m l b s = (refl, refl)
