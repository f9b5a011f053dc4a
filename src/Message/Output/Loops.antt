-- ===== src/Message/Output/Loops.antt =====
-- The loops that make a message into bytes, on sites whose bytes are known.
use cube.Prelude.{
  ℕ, zero, suc, ◌+◌, ◌≤◌, ◌≡◌, refl, sym, ap, ap₂, subst, ◌∙◌, Bool, true, Option, none, some, List,
  [], ◌∷◌, ◌++◌, pos, length, length-append, arith,
}
use cube.Message.{joined, MsgExpand, Site, StructOps}
use cube.Message.Output.{
  Encoded, encoded, Sizes, behind, fill_encoded, resize_site, encode_record, encode_expand,
  record_loop, expand_loop, size_of_expand,
}
use cube.Message.Output.Copied.{Each, Filled}

module _ {S : Type 0} (ops : StructOps S) where
  -- The bytes of a record: those that its site has, or those of its struct.
  pub data RecordIs (template : Option (ℕ × ℕ)) (s : Site S) (b : List ℕ) : Type 0 where
    kept : Filled s b → RecordIs template s b
    made :
        (value : S)
        → s.bytes ≡ none
        → s.struct ≡ some value
        → encode_record ops template value ≡ some (encoded b)
        → RecordIs template s b

  -- The bytes of an expand: those of its struct, or those that its site has, where it has none.
  pub data ExpandIs (s : Site (MsgExpand S)) (b : List ℕ) : Type 0 where
    given :
        s.struct ≡ none
        → s.bytes ≡ some b
        → size_of_expand b ≡ some (length b)
        → 4 ≤ length b
        → ExpandIs s b
    made :
        (e : MsgExpand S)
        → s.struct ≡ some e
        → encode_expand ops e ≡ some (encoded b)
        → ExpandIs s b

  -- What a loop over sites made: the sum of the sizes, and sites with the bytes.
  abbrev pub Made : {A : Type 0} → Sizes A → ℕ → List (List ℕ) → Type 0
  Made {A} r total bytes =
      (sites : List (Site A)) × (r ≡ some (pos total, sites)) × Each Filled sites bytes

  -- A round that puts a site in front of what the others made.
  Made-behind :
      {A : Type 0} (loop : Sizes A) (s : Site A) (r : Sizes A) (total : ℕ) (b : List ℕ)
      (bytes : List (List ℕ))
      → loop ≡ behind s r
      → Filled s b
      → Made r (total + length b + length (joined bytes)) bytes
      → Made loop (total + length (b ++ joined bytes)) (b ∷ bytes)
  Made-behind loop s r total b bytes e f (sites, e', each) = (
    s ∷ sites,
    e
        ∙ ap (behind s) e'
        ∙ ap (λ k. some (pos k, s ∷ sites)) (omega (arith, length-append b (joined bytes))),
    (f, each),
  )

  fill_made :
      {A : Type 0} (memory : Bool) (s : Site A) (sites : List (Site A)) (rest : ℕ → Sizes A)
      (c : Option Encoded) (b : List ℕ)
      → c ≡ some (encoded b)
      → memory ≡ true
      → fill_encoded memory s sites rest c
        ≡ behind (record s { bytes = some b; size = length b }) (rest (length b))
  unfolding fill_encoded
  fill_made memory s sites rest c b e m = ap₂ (λ t u. fill_encoded t s sites rest u) m e

  module _ (template : Option (ℕ × ℕ)) (memory : ℕ → Bool) (all : (i : ℕ) → memory i ≡ true) where
    record_kept :
        (i n : ℕ) (s : Site S) (sites : List (Site S)) (total : ℕ) (b : List ℕ)
        → s.bytes ≡ some b
        → record_loop ops template memory i (suc n) (s ∷ sites) total
          ≡ behind s (record_loop ops template memory (i + 1) n sites (total + s.size))
    unfolding record_loop
    record_kept i n s sites total b e =
        let at : Option (List ℕ) → Site S =
          λ t. record { bytes = t; struct = s.struct; size = s.size } in
        ap (λ t. record_loop ops template memory i (suc n) (at t ∷ sites) total) e
        ∙ ap (λ t. behind (at t) (record_loop ops template memory (i + 1) n sites (total + s.size)))
            (sym e)

    record_made :
        (i n : ℕ) (s : Site S) (sites : List (Site S)) (total : ℕ) (value : S) (b : List ℕ)
        → s.bytes ≡ none
        → s.struct ≡ some value
        → encode_record ops template value ≡ some (encoded b)
        → record_loop ops template memory i (suc n) (s ∷ sites) total
          ≡ behind
              (record s { bytes = some b; size = length b })
              (record_loop ops template memory (i + 1) n sites (total + length b))
    unfolding record_loop
    record_made i n s sites total value b e e' c =
        let rest : ℕ → Sizes S = λ k. record_loop ops template memory (i + 1) n sites (total + k) in
        let at : Option (List ℕ) → Option S → Site S =
          λ t u. record { bytes = t; struct = u; size = s.size } in
        ap₂ (λ t u. record_loop ops template memory i (suc n) (at t u ∷ sites) total) e e'
        ∙ fill_made (memory i) (at none (some value)) sites rest _ b c (all i)
        ∙ ap
            (λ u. behind (record { bytes = some b; struct = u; size = length b }) (rest (length b)))
            (sym e')

    pub record_loop_lem :
        (i n : ℕ) (sites : List (Site S)) (total : ℕ) (bytes : List (List ℕ))
        → n ≡ length sites
        → Each (RecordIs template) sites bytes
        → Made
            (record_loop ops template memory i n sites total)
            (total + length (joined bytes))
            bytes
    unfolding record_loop
    record_loop_lem i zero [] total [] e r = ([], ap (λ k. some (pos k, [])) (omega arith), tt)
    record_loop_lem i zero (s ∷ sites) total bytes e r = absurd (omega arith)
    record_loop_lem i zero [] total (b ∷ bytes) e r = elim r [ ]
    record_loop_lem i (suc n) [] total bytes e r = absurd (omega arith)
    record_loop_lem i (suc n) (s ∷ sites) total [] e r = elim r [ ]
    record_loop_lem i (suc n) (s ∷ sites) total (b ∷ bytes) e (kept f, r) =
        Made-behind _ s (record_loop ops template memory (i + 1) n sites (total + s.size)) total b
          bytes (record_kept i n s sites total b f.has_bytes) f
          (subst
            (λ k.
              Made (record_loop ops template memory (i + 1) n sites (total + s.size))
                (total + k + length (joined bytes)) bytes)
            f.has_size (record_loop_lem (i + 1) n sites (total + s.size) bytes (omega arith) r))
    record_loop_lem i (suc n) (s ∷ sites) total (b ∷ bytes) e (made value p q c, r) =
        Made-behind _ (record s { bytes = some b; size = length b })
          (record_loop ops template memory (i + 1) n sites (total + length b)) total b bytes
          (record_made i n s sites total value b p q c)
          (record { has_bytes = refl; has_size = refl })
          (record_loop_lem (i + 1) n sites (total + length b) bytes (omega arith) r)

  module _ (memory : ℕ → Bool) (all : (i : ℕ) → memory i ≡ true) where
    pub expand_given :
        (i n : ℕ) (s : Site (MsgExpand S)) (sites : List (Site (MsgExpand S))) (total : ℕ)
        (b : List ℕ)
        → s.struct ≡ none
        → s.bytes ≡ some b
        → size_of_expand b ≡ some (length b)
        → expand_loop ops memory i (suc n) (s ∷ sites) total
          ≡ behind
              (record s { bytes = some b; size = length b })
              (expand_loop ops memory (i + 1) n sites (total + length b))
    unfolding expand_loop
    expand_given i n s sites total b e e' c =
        let rest : ℕ → Sizes (MsgExpand S) =
          λ k. expand_loop ops memory (i + 1) n sites (total + k) in
        let at : Option (MsgExpand S) → Option (List ℕ) → Site (MsgExpand S) =
          λ u t. record { bytes = t; struct = u; size = s.size } in
        ap₂ (λ u t. expand_loop ops memory i (suc n) (at u t ∷ sites) total) e e'
        ∙ ap (resize_site (at none (some b)) rest) c
        ∙ ap
            (λ u. behind (record { bytes = some b; struct = u; size = length b }) (rest (length b)))
            (sym e)

    pub expand_made :
        (i n : ℕ) (s : Site (MsgExpand S)) (sites : List (Site (MsgExpand S))) (total : ℕ)
        (value : MsgExpand S) (b : List ℕ)
        → s.struct ≡ some value
        → encode_expand ops value ≡ some (encoded b)
        → expand_loop ops memory i (suc n) (s ∷ sites) total
          ≡ behind
              (record s { bytes = some b; size = length b })
              (expand_loop ops memory (i + 1) n sites (total + length b))
    unfolding expand_loop
    expand_made i n s sites total value b e c =
        let rest : ℕ → Sizes (MsgExpand S) =
          λ k. expand_loop ops memory (i + 1) n sites (total + k) in
        let at : Option (MsgExpand S) → Site (MsgExpand S) =
          λ u. record { bytes = s.bytes; struct = u; size = s.size } in
        ap (λ u. expand_loop ops memory i (suc n) (at u ∷ sites) total) e
        ∙ fill_made (memory i) (at (some value)) sites rest _ b c (all i)
        ∙ ap
            (λ u. behind (record { bytes = some b; struct = u; size = length b }) (rest (length b)))
            (sym e)

    pub expand_loop_lem :
        (i n : ℕ) (sites : List (Site (MsgExpand S))) (total : ℕ) (bytes : List (List ℕ))
        → n ≡ length sites
        → Each ExpandIs sites bytes
        → Made (expand_loop ops memory i n sites total) (total + length (joined bytes)) bytes
    unfolding expand_loop
    expand_loop_lem i zero [] total [] e r = ([], ap (λ k. some (pos k, [])) (omega arith), tt)
    expand_loop_lem i zero (s ∷ sites) total bytes e r = absurd (omega arith)
    expand_loop_lem i zero [] total (b ∷ bytes) e r = elim r [ ]
    expand_loop_lem i (suc n) [] total bytes e r = absurd (omega arith)
    expand_loop_lem i (suc n) (s ∷ sites) total [] e r = elim r [ ]
    expand_loop_lem i (suc n) (s ∷ sites) total (b ∷ bytes) e (x, r) =
        Made-behind _ (record s { bytes = some b; size = length b })
          (expand_loop ops memory (i + 1) n sites (total + length b)) total b bytes
          (elim x [
            | given p q c l ↦ expand_given i n s sites total b p q c
            | made value p c ↦ expand_made i n s sites total value b p c
          ])
          (record { has_bytes = refl; has_size = refl })
          (expand_loop_lem (i + 1) n sites (total + length b) bytes (omega arith) r)
