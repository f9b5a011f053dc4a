-- ===== src/EnumFlag/RoundTrip.antt =====
-- What is written for a flag or an enumeration is read back.
use cube.Prelude.{
  ℕ, zero, suc, ◌/◌, ◌^◌, ◌≤◌, ◌<◌, ◌≡◌, refl, sym, ap, ◌∙◌, Bool, true, false, some,
  some-injective, List, [], ◌∷◌, pos, ltb, ◌==◌, ==→eq, is_zero, arith, if◌then◌else◌, length,
}
use native.Mathlib.Nat.{pow-suc}
use cube.Strings.{strcmp}
use cube.EnumFlag.{
  as_int, Name2Value, NameList, cube_type_enum, cube_type_senum, cube_type_benum, nulstring, load,
  store, name_of, ended, enum_text, enum_get_text_value, last_value, enum_set_text_value,
  flag_names, flag_text, flag_width, flag_get_text_value, flags, flag_loop, flag_set_text_value,
}
use cube.EnumFlag.Joined.{selected, AllNames, AllFound, flag_names-joined, flag_loop-joined}

flag_get-names :
    (elem_type width : ℕ) (l : NameList) (addr : List ℕ)
    → flag_width elem_type ≡ some width
    → 0 < length (flag_names l.elemlist (load width addr) [])
    → flag_get_text_value elem_type l addr ≡ ended (flag_names l.elemlist (load width addr) [])
unfolding flag_get_text_value flag_text
flag_get-names elem_type width l addr e p =
    let some_flag : (length (flag_names l.elemlist (load width addr) []) == 0) ≡ false =
      ground arith in
    rw (flag_get_text_value, e, some_flag) refl

flag_set-flags :
    (elem_type width : ℕ) (l : NameList) (addr text : List ℕ) (v : ℕ)
    → flag_width elem_type ≡ some width
    → is_zero (strcmp nulstring text) ≡ false
    → flag_loop l text [] 0 ≡ flags v
    → flag_set_text_value elem_type l addr text ≡ some (pos 0, store width v addr)
unfolding flag_set_text_value
flag_set-flags elem_type width l addr text v e n r = rw (n, r, e) refl

-- For a list whose names are some characters without a bar, fewer than 32, and found as their values:
-- if some flag of the value in a field has a name and the text is not NULL, `flag_get_text_value`
-- gives the text with its terminator and its length, and `flag_set_text_value` of the text stores the
-- values of all named flags that meet the value into any field of the same kind.
pub flag_set-flag_get :
    (elem_type width : ℕ) (l : NameList) (addr into : List ℕ)
    → flag_width elem_type ≡ some width
    → AllNames l.elemlist
    → AllFound l.elemlist l.elemlist
    → 0 < length (flag_names l.elemlist (load width addr) [])
    → is_zero (strcmp nulstring (flag_names l.elemlist (load width addr) [])) ≡ false
    → (flag_get_text_value elem_type l addr ≡ ended (flag_names l.elemlist (load width addr) []))
      × (flag_set_text_value elem_type l into (flag_names l.elemlist (load width addr) [])
          ≡ some (pos 0, store width (selected l.elemlist (load width addr) 0) into))
flag_set-flag_get elem_type width l addr into e h f p n =
    let v = load width addr in
    (
      flag_get-names elem_type width l addr e p,
      flag_set-flags elem_type width l into (flag_names l.elemlist v []) (selected l.elemlist v 0) e
          n
          (ap (λ text. flag_loop l text [] 0) (flag_names-joined l.elemlist v h)
            ∙ flag_loop-joined l l.elemlist true v 0 h f),
    )

-- A number that fits is loaded as it was stored.
pub load-store :
    (n v : ℕ) (addr : List ℕ) → n ≤ length addr → v < 256 ^ n → load n (store n v addr) ≡ v
unfolding load store
load-store zero v addr l h = omega arith
load-store (suc n) v [] l h = absurd (omega arith)
load-store (suc n) v (b ∷ addr) l h =
    let ih = load-store n (v / 256) addr (omega arith) (omega (arith, pow-suc 256 n)) in
    omega (arith, ih)

-- The names of a list stand for their values, also where the last one of a name counts.
abbrev pub AllLast : List Name2Value → List Name2Value → Type 0
AllLast all [] = Unit
AllLast all (e ∷ elems) = (last_value all e.name ≡ some e.value) × AllLast all elems

name_of-last :
    (all elems : List Name2Value) (v : ℕ) (name : List ℕ)
    → AllLast all elems
    → name_of elems v ≡ some name
    → last_value all name ≡ some v
unfolding name_of
name_of-last all [] v name a e = absurd (cc e)
name_of-last all (x ∷ elems) v name a e =
    by_value (λ e'. name_of-last all elems v name a.1 e') (x.value == v) refl e
  where
    by_value :
        (name_of elems v ≡ some name → last_value all name ≡ some v)
        → (b : Bool) → (x.value == v) ≡ b
        → (if b then some x.name else name_of elems v) ≡ some name
        → last_value all name ≡ some v
    by_value next true same e' =
        ap (last_value all) (sym (some-injective x.name name e'))
        ∙ a.0
        ∙ ap some (==→eq x.value v same)
    by_value next false other e' = next e'

-- The kinds of enumerations: the width, and the values that fit.
pub data Kind : ℕ → ℕ → ℕ → Type 0 where
  whole : Kind cube_type_enum 4 (2 ^ 32)
  short : Kind cube_type_senum 2 32768
  byte : Kind cube_type_benum 1 128

enum_set-value :
    (elem_type width limit v : ℕ) (l : NameList) (addr name : List ℕ)
    → Kind elem_type width limit
    → v < limit
    → is_zero (strcmp nulstring name) ≡ false
    → last_value l.elemlist name ≡ some v
    → enum_set_text_value elem_type l addr name ≡ some (as_int v, store width v addr)
unfolding enum_set_text_value
enum_set-value _ _ _ v l addr name whole h n e = rw (n, e) refl
enum_set-value _ _ _ v l addr name short h n e =
    let small : ltb 32767 v ≡ false = ground arith in rw (n, e, small) refl
enum_set-value _ _ _ v l addr name byte h n e =
    let small : ltb 127 v ≡ false = ground arith in rw (n, e, small) refl

enum_text-name :
    (l : NameList) (v : ℕ) (name : List ℕ)
    → name_of l.elemlist v ≡ some name
    → enum_text l v ≡ ended name
unfolding enum_text
enum_text-name l v name e = rw (enum_text, e) refl

enum_get-name :
    (elem_type width limit v : ℕ) (l : NameList) (addr name : List ℕ)
    → Kind elem_type width limit
    → load width addr ≡ v
    → name_of l.elemlist v ≡ some name
    → enum_get_text_value elem_type l addr ≡ ended name
unfolding enum_get_text_value
enum_get-name _ _ _ v l addr name whole e n =
    rw (enum_get_text_value, e) (enum_text-name l v name n)
enum_get-name _ _ _ v l addr name short e n =
    rw (enum_get_text_value, e) (enum_text-name l v name n)
enum_get-name _ _ _ v l addr name byte e n = rw (enum_get_text_value, e) (enum_text-name l v name n)

fits : {elem_type width limit : ℕ} → Kind elem_type width limit → limit ≤ 256 ^ width
fits whole = omega arith
fits short = omega arith
fits byte = omega arith

-- For a list whose names stand for their values, the last one of a name included: a name that is not
-- NULL and that `enum_get_text_value` has for a value in the range of its kind is stored by
-- `enum_set_text_value` as this value into a field with room, and read from there as the name with its
-- terminator. What is returned is the 32 bits of the value as an `int`, which is negative from 2 ^ 31
-- on.
pub enum_get-enum_set :
    (elem_type width limit v : ℕ) (l : NameList) (addr name : List ℕ)
    → Kind elem_type width limit
    → v < limit
    → width ≤ length addr
    → AllLast l.elemlist l.elemlist
    → is_zero (strcmp nulstring name) ≡ false
    → name_of l.elemlist v ≡ some name
    → (enum_set_text_value elem_type l addr name ≡ some (as_int v, store width v addr))
      × (enum_get_text_value elem_type l (store width v addr) ≡ ended name)
enum_get-enum_set elem_type width limit v l addr name k h r a n e = (
  enum_set-value elem_type width limit v l addr name k h n
      (name_of-last l.elemlist l.elemlist v name a e),
  enum_get-name elem_type width limit v l (store width v addr) name k
      (load-store width v addr r (omega (arith, fits k))) e,
)
