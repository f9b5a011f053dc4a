-- ===== src/EnumFlag/Tests.antt =====
-- Names of flags and of an enumeration, and the theorems at them.
use cube.Prelude.{◌≡◌, refl, true, some, [], ◌∷◌, pos, codes, arith, einval}
use cube.Strings.{strcmp}
use cube.EnumFlag.{
  as_int, NameList, load, store, name_of, ended, enum_get_text_value, last_value,
  enum_set_text_value, flag_names, flag_get_text_value, flag_set_text_value, value_of, flag_width,
}
use cube.EnumFlag.Joined.{selected}
use cube.EnumFlag.RoundTrip.{short, flag_set-flag_get, enum_get-enum_set}

abbrev some_names : NameList
some_names = record {
  elemlist =
      record { name = codes "CRYPT"; value = 1 }
      ∷ record { name = codes "SIGN"; value = 4 }
      ∷ record { name = codes "ZIP"; value = 16 }
      ∷ [];
  ends_null = true;
}

-- `NULL` in a field of one byte clears the three bytes behind it.
null-overwrites :
    enum_set_text_value 6 some_names (1 ∷ 2 ∷ 3 ∷ 4 ∷ []) (codes "NULL")
    ≡ some (pos 0, 0 ∷ 0 ∷ 0 ∷ 0 ∷ [])
unfolding enum_set_text_value strcmp
null-overwrites = refl

unknown-fails : flag_set_text_value 7 some_names [] (codes "SIGN|SIGH") ≡ some (einval, [])
unfolding flag_set_text_value strcmp
unknown-fails = refl

flag_set-flag_get_example :
    (flag_get_text_value 9 some_names (21 ∷ [])
      ≡ ended (flag_names some_names.elemlist (load 1 (21 ∷ [])) []))
    × (flag_set_text_value 9 some_names
          (0 ∷ [])
          (flag_names some_names.elemlist (load 1 (21 ∷ [])) [])
        ≡ some (pos 0, store 1 (selected some_names.elemlist (load 1 (21 ∷ [])) 0) (0 ∷ [])))
unfolding flag_width flag_names load value_of strcmp
flag_set-flag_get_example =
    flag_set-flag_get 9 1 some_names (21 ∷ []) (0 ∷ []) refl (omega arith)
      (refl, (refl, (refl, tt))) (omega arith) refl

enum_get-enum_set_example :
    (enum_set_text_value 5 some_names (0 ∷ 0 ∷ []) (codes "SIGN")
      ≡ some (as_int 4, store 2 4 (0 ∷ 0 ∷ [])))
    × (enum_get_text_value 5 some_names (store 2 4 (0 ∷ 0 ∷ [])) ≡ ended (codes "SIGN"))
unfolding last_value strcmp name_of
enum_get-enum_set_example =
    enum_get-enum_set 5 2 32768 4 some_names (0 ∷ 0 ∷ []) (codes "SIGN") short (omega arith)
      (omega arith) (refl, (refl, (refl, tt))) refl refl
