-- ===== src/Json/Spec.antt =====
-- What the trees of json.c stand for: JSON values, their text and their nodes.
use cube.Prelude.{
  ℕ, ◌+◌, ◌^◌, ◌<◌, ◌≡◌, ◌≢◌, refl, Bool, true, false, List, [], ◌∷◌, ◌++◌, pos, codes,
  if◌then◌else◌, length, All, digest_size,
}
pub use cube.Strings.Same.{NoNul, FitsIn}
use cube.Number.{itoa}
use cube.Json.{
  Node, Nodes, node, nil, cons, blank, info_of, elem_num, elem_string, elem_bool, elem_map,
  elem_array, elem_value,
}

-- A map has named members, an array has members whose names are empty.
mutual
  pub data Value : Type 0 where
    string : List ℕ → Value
    number : ℕ → Value
    flag : Bool → Value
    map : Members → Value
    array : Members → Value

  pub data Members : Type 0 where
    end : Members
    member : List ℕ → Value → Members → Members

abbrev pub quoted : List ℕ → List ℕ
quoted s = b'"' ∷ s ++ b'"' ∷ []

-- The text without spaces. `inner` has the members of a map or of an array, with a comma in front
-- of all but the first.
unfoldable mutual
  pub text : Value → List ℕ
  text (string s) = quoted s
  text (number n) = itoa (pos n)
  text (flag b) = if b then codes "true" else codes "false"
  text (map ms) = b'{' ∷ inner true true ms ++ b'}' ∷ []
  text (array ms) = b'[' ∷ inner false true ms ++ b']' ∷ []

  pub inner : Bool → Bool → Members → List ℕ
  inner named first end = []
  inner named first (member name v ms) =
      (if first then [] else b',' ∷ [])
      ++ (if named then quoted name ++ b':' ∷ [] else [])
      ++ text v
      ++ inner named false ms

abbrev pub count : Members → ℕ
count end = 0
count (member name v ms) = count ms + 1

abbrev pub flagged : Bool → ℕ → ℕ
flagged isvalue datatype = (if isvalue then elem_value else 0) + datatype

-- The nodes: the flag of values is set in arrays and at the root.
unfoldable mutual
  pub tree : Bool → List ℕ → Value → Node
  tree isvalue name (string s) =
      node (record blank { name = name; elem_type = flagged isvalue elem_string; value_str = s })
        nil
  tree isvalue name (number n) =
      node (record blank { name = name; elem_type = flagged isvalue elem_num; value = n }) nil
  tree isvalue name (flag b) =
      node
        (record blank {
          name = name;
          elem_type = flagged isvalue elem_bool;
          value = if b then 1 else 0;
        })
        nil
  tree isvalue name (map ms) =
      node (record blank { name = name; elem_type = flagged isvalue elem_map; elem_no = count ms })
        (trees false ms)
  tree isvalue name (array ms) =
      node
        (record blank { name = name; elem_type = flagged isvalue elem_array; elem_no = count ms })
        (trees true ms)

  pub trees : Bool → Members → Nodes
  trees isvalue end = nil
  trees isvalue (member name v ms) = cons (tree isvalue name v) (trees isvalue ms)

-- A character of a text in quotes that stands for itself.
abbrev pub IsPlain : ℕ → Type 0
IsPlain c = (c ≢ 0) × (c ≢ b'"') × (c ≢ b'\\')

-- The values that are read back: names of 29 characters at most, strings of 511 at most, numbers
-- that are no negative `int`, and no `false`.
abbrev pub IsName : List ℕ → Type 0
IsName name = All IsPlain name × (length name + 2 < digest_size)

abbrev mutual
  pub IsReadable : Value → Type 0
  IsReadable (string s) = All IsPlain s × (length s < 512)
  IsReadable (number n) = n < 2 ^ 31
  IsReadable (flag true) = Unit
  IsReadable (flag false) = ⊥
  IsReadable (map ms) = AreReadable true ms
  IsReadable (array ms) = AreReadable false ms

  pub AreReadable : Bool → Members → Type 0
  AreReadable named end = Unit
  AreReadable named (member name v ms) =
      (if named then IsName name else (length name ≡ 0)) × IsReadable v × AreReadable named ms

-- The values that are printed whole: names in maps of 32 characters at most, strings of 512 at most,
-- and numbers that are no negative `int`.
abbrev mutual
  pub IsPrintable : Value → Type 0
  IsPrintable (string s) = FitsIn 512 s
  IsPrintable (number n) = n < 2 ^ 31
  IsPrintable (flag b) = Unit
  IsPrintable (map ms) = ArePrintable true ms
  IsPrintable (array ms) = ArePrintable false ms

  pub ArePrintable : Bool → Members → Type 0
  ArePrintable named end = Unit
  ArePrintable named (member name v ms) =
      (if named then FitsIn digest_size name else Unit) × IsPrintable v × ArePrintable named ms

-- A map or an array.
pub data IsDocument : Value → Type 0 where
  of_map : {ms : Members} → IsDocument (map ms)
  of_array : {ms : Members} → IsDocument (array ms)

pub name-tree :
    (isvalue : Bool) (name : List ℕ) (v : Value) → (info_of (tree isvalue name v)).name ≡ name
unfolding tree
name-tree isvalue name (string s) = refl
name-tree isvalue name (number n) = refl
name-tree isvalue name (flag b) = refl
name-tree isvalue name (map ms) = refl
name-tree isvalue name (array ms) = refl
