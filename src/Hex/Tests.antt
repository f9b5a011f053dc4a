-- ===== src/Hex/Tests.antt =====
-- Two bytes in text, and the theorems at them.
use cube.Prelude.{◌++◌, ℕ, ◌≡◌, refl, List, [], ◌∷◌, true, pos, arith, codes, slice, replicate}
use cube.Strings.{memcmp, memcmp_loop, strnlen}
use cube.Hex.{isstrinuuid, bin_2_hex, hex_2_bin, hex_loop, hex_value, hex_store}
use cube.Hex.RoundTrip.{hex_2_bin-bin_2_hex}

abbrev bytes : List ℕ
bytes = 0x47 ∷ 0x2b ∷ []

hex-bytes : bin_2_hex bytes ≡ codes "472b"
unfolding bin_2_hex
hex-bytes = refl

bin-hex : hex_2_bin (codes "472b") 4 (0 ∷ 0 ∷ []) ≡ (pos 2, 0x47 ∷ 0x21 ∷ [])
unfolding hex_2_bin hex_loop hex_value hex_store strnlen
bin-hex = refl

hex_2_bin-bin_2_hex_example :
    let (status, bin') = hex_2_bin (bin_2_hex bytes) 4 (0 ∷ 0 ∷ 0 ∷ []) in
    (status ≡ pos 2) × (slice bin' 0 2 ≡ 0x47 ∷ 0x21 ∷ [])
hex_2_bin-bin_2_hex_example = hex_2_bin-bin_2_hex bytes (0 ∷ 0 ∷ 0 ∷ []) (omega arith) (omega arith)

abbrev uuid : List ℕ
uuid = replicate 64 b'f'

abbrev named : List ℕ
named = codes "cube" ++ replicate 28 0

named-isstrinuuid : isstrinuuid named ≡ true
unfolding isstrinuuid memcmp memcmp_loop strnlen
named-isstrinuuid = refl
