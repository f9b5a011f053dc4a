-- ===== src/Message/Refused.antt =====
-- A message behind an expand that message_add_expand of cubelib/message/message.c refused.
use cube.Prelude.{
  ℕ, zero, suc, ◌+◌, ◌^◌, ◌≤◌, ◌<◌, ◌≡◌, refl, ap, ap₂, ◌∙◌, true, false, none, some, List, [], ◌∷◌,
  ◌++◌, pos, einval, length, length-append, length-replicate, replicate, if◌then◌else◌, arith,
}
use cube.MessageQueue.{enomem}
use cube.Message.{joined, sizeof_msg_head, MessageBox, MsgExpand, Site, null_site, StructOps}
use cube.Message.Output.{
  OutputMemory, bufsize, behind, expand_loop, with_expand_size, message_expand_struct2blob,
}
use cube.Message.Output.Blob.{finish_filled, append_expands, message_output_blob}
use cube.Message.Output.Copied.{Each}
use cube.Message.Output.Loops.{RecordIs, ExpandIs, given, made, expand_given, expand_made}
use cube.Message.Output.Made.{Enough, IsMade}
use cube.Message.Output.Parts.{copy_records_lem}
use cube.Message.Output.Written.{output_blob-IsMade}
use cube.Message.Expands.{message_add_expand}
use cube.Message.Expands.Added.{with_site, message_add_expand-refused}

module _ {S : Type 0} (ops : StructOps S) (memory : OutputMemory) (enough : Enough memory) where
  -- The loop over the expands ends at a site without a struct and without bytes.
  expand_loop-null :
      (i n : ℕ) (sites : List (Site (MsgExpand S))) (total : ℕ) (expands : List (List ℕ))
      → n ≡ length sites
      → Each (ExpandIs ops) sites expands
      → (sites' : List (Site (MsgExpand S))) × (expand_loop ops memory.for_expand i
            (suc n)
            (sites ++ null_site ∷ [])
            total
          ≡ some (einval, sites'))
  unfolding expand_loop
  expand_loop-null i n [] total expands e r = (null_site ∷ [], refl)
  expand_loop-null i zero (s ∷ sites) total expands e r = absurd (omega arith)
  expand_loop-null i (suc n) (s ∷ sites) total [] e r = elim r [ ]
  expand_loop-null i (suc n) (s ∷ sites) total (b ∷ expands) e (x, r) =
      let (sites', ended) =
        expand_loop-null (i + 1) n sites (total + length b) expands (omega arith) r in
      (
        _,
        (elim x [
          | given p q c l ↦
              expand_given ops memory.for_expand enough.for_expand i (suc n) s
                (sites ++ null_site ∷ []) total b p q c
          | made value p c ↦
              expand_made ops memory.for_expand enough.for_expand i (suc n) s
                (sites ++ null_site ∷ []) total value b p c
        ])
            ∙ ap (behind (record s { bytes = some b; size = length b })) ended,
      )

  struct2blob-null :
      (m : MessageBox S) (expands : List (List ℕ)) (sites : List (Site (MsgExpand S)))
      → m.expands ≡ sites ++ null_site ∷ []
      → m.head.expand_num ≡ suc (length sites)
      → Each (ExpandIs ops) sites expands
      → (m' : MessageBox S) × (message_expand_struct2blob ops memory m ≡ some (einval, m'))
  unfolding message_expand_struct2blob
  struct2blob-null m expands sites e n r =
      let (sites', ended) = expand_loop-null 0 (length sites) sites 0 expands refl r in
      (
        record m { expands = sites' },
        ap
              (λ b.
                if b
                then with_expand_size ops m
                    (expand_loop ops memory.for_expand 0 m.head.expand_num m.expands 0)
                else some (enomem, m))
              enough.expand_buffer
            ∙ ap₂ (λ k l. with_expand_size ops m (expand_loop ops memory.for_expand 0 k l 0)) n e
            ∙ ap (with_expand_size ops m) ended,
      )

  append_expands-null :
      (m : MessageBox S) (buffer : List ℕ) (offset k : ℕ) (expands : List (List ℕ))
      (sites : List (Site (MsgExpand S)))
      → m.expands ≡ sites ++ null_site ∷ []
      → m.head.expand_num ≡ suc (length sites)
      → Each (ExpandIs ops) sites expands
      → (m' : MessageBox S) × (append_expands ops memory (some (pos k, m, buffer, offset))
          ≡ some (einval, none, m'))
  unfolding append_expands
  append_expands-null m buffer offset k expands sites e n r =
      let (m', ran) = struct2blob-null m expands sites e n r in
      (m', ap (finish_filled memory.out buffer offset) ran)

  -- An expand of a type without a template is refused by message_add_expand with ENOMEM, and spoils
  -- the message: where the message was made here, could be put out and has memory for all,
  -- message_output_blob now returns EINVAL and no bytes.
  pub message_output_blob-refused :
      (m : MessageBox S) (e : MsgExpand S) (records expands : List (List ℕ))
      → ops.has_template (e.type, e.subtype) ≡ false
      → IsMade m
      → m.head.expand_num + 1 < 2 ^ 31
      → Each (RecordIs ops m.record_template) m.records records
      → Each (ExpandIs ops) m.expands expands
      → sizeof_msg_head + length (joined records) ≤ bufsize
      → (m' m'' : MessageBox S) × (message_add_expand ops true true true m (some e)
          ≡ some (enomem, m'))
        × (message_output_blob ops memory m' ≡ some (einval, none, m''))
  unfolding with_site
  message_output_blob-refused m e records expands t ready few rs es h =
      let m' : MessageBox S = with_site ops m e null_site in
      let size : length (m.expands ++ null_site {S = MsgExpand S} ∷ []) ≡ length m.expands + 1 =
        length-append m.expands (null_site ∷ []) in
      let ready' : IsMade m' = record {
        no_blob = ready.no_blob;
        has_template = ready.has_template;
        not_crypt = ready.not_crypt;
        record_num_is = ready.record_num_is;
        expand_num_is = omega (arith, ready.expand_num_is);
        record_num_lt = ready.record_num_lt;
        expand_num_lt = few;
      } in
      let buffer : List ℕ = replicate bufsize 0 in
      let room : length buffer ≡ bufsize = length-replicate {A = ℕ} bufsize 0 in
      let (record_sites, buffer', each, copied, len, is) =
        copy_records_lem ops memory enough m' records buffer ready.record_num_is rs (omega arith) in
      let m₁ : MessageBox S = record m' {
        records = record_sites;
        head = record (m'.head) { record_size = length (joined records) };
      } in
      let (m'', ended) =
        append_expands-null m₁ buffer' (sizeof_msg_head + length (joined records)) 0 expands
          m.expands refl (omega (arith, ready.expand_num_is)) es in
      (
        m',
        m'',
        message_add_expand-refused ops m e ready.expand_num_is t,
        output_blob-IsMade ops memory enough m' ready'
            ∙ ap (append_expands ops memory) copied
            ∙ ended,
      )
