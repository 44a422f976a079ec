-- ===== src/Framing/Fill.antt =====
-- adapter/stdio_framing.c: `fill` takes bytes off the source and keeps the stream.
use displayxr_mcp.Prelude.{
  suc, ◌+◌, ◌-◌, ◌<◌, ◌≡◌, refl, sym, ap, ◌∙◌, subst, Bool, true, false, List, [], ◌∷◌, ◌++◌,
  length, length-append, append_assoc, ltb, ◌==◌, Bytes, arith, Bool-cases, inl, inr, ◌⊎◌,
}
use displayxr_mcp.Framing.{concat, Reader, read_source, fill_room, grown, fill, max_message}
use displayxr_mcp.Framing.Ready.{AllNonempty, IsReady, Filled, take_chunk, grown-IsCapacity}

fill_room-read :
    (r : Reader) (bytes : Bytes) (source : List Bytes)
    → read_source (r.capacity - length r.buffer) r.source ≡ (bytes, source)
    → 0 < length bytes
    → fill_room r ≡ (record r { buffer = r.buffer ++ bytes; source = source }, true)
unfolding fill_room
fill_room-read r [] source e p = absurd (omega arith)
fill_room-read r (b ∷ bs) source e p =
    let bytes : (read_source (r.capacity - length r.buffer) r.source).0 ≡ b ∷ bs =
      ap (λ t. t.0) e in
    let left : (read_source (r.capacity - length r.buffer) r.source).1 ≡ source = ap (λ t. t.1) e in
    rw (bytes, fill_room, left)

-- A `fill` as it should be: it takes bytes, and the reader stays ready.
abbrev pub Fills : Reader → Reader × Bool → Type 0
Fills r out = (r' : Reader) × (out ≡ (r', true)) × Filled r r'

fill_room-chunk :
    (r : Reader) (c : Bytes) (cs : List Bytes)
    → r.source ≡ c ∷ cs
    → IsReady r
    → length r.buffer < r.capacity
    → Fills r (fill_room r)
fill_room-chunk r c cs s v l =
    let m = r.capacity - length r.buffer - 1 in
    let e : r.capacity - length r.buffer ≡ suc m = omega arith in
    let chunks : AllNonempty (c ∷ cs) = subst AllNonempty s v.chunks in
    let out = read_source (suc m) (c ∷ cs) in
    let t = take_chunk m c cs chunks.0 chunks.1 in
    let read : read_source (r.capacity - length r.buffer) r.source ≡ out =
      ap (λ n. read_source n r.source) e ∙ ap (read_source (suc m)) s in
    let left : concat r.source ≡ c ++ concat cs = ap concat s in
    (
      record r { buffer = r.buffer ++ out.0; source = out.1 },
      fill_room-read r out.0 out.1 read t.some_bytes,
      record {
        ready = record {
          more = v.more;
          fits = omega (arith, length-append r.buffer out.0, t.room);
          sized = v.sized;
          chunks = t.left;
        };
        same = append_assoc r.buffer out.0 (concat out.1) ∙ ap (◌++◌ r.buffer) (t.all ∙ sym left);
        style = refl;
        shorter = omega (
          arith,
          length-append out.0 (concat out.1),
          ap length t.all,
          ap length left,
          t.some_bytes,
        );
      },
    )

fill_room_lem :
    (r : Reader) (source : List Bytes)
    → r.source ≡ source
    → IsReady r
    → length r.buffer < r.capacity
    → 0 < length (concat r.source)
    → Fills r (fill_room r)
fill_room_lem r [] s v l p = absurd (omega (arith, ap (λ cs. length (concat cs)) s))
fill_room_lem r (c ∷ cs) s v l p = fill_room-chunk r c cs s v l

fill-room :
    (r : Reader) → r.eof ≡ false → (length r.buffer == r.capacity) ≡ false → fill r ≡ fill_room r
unfolding fill
fill-room r e f = simp (e, f)

fill-grown :
    (r : Reader)
    → r.eof ≡ false
    → (length r.buffer == r.capacity) ≡ true
    → ltb (max_message + 4096) (grown r.capacity) ≡ false
    → fill r ≡ fill_room (record r { capacity = grown r.capacity })
unfolding fill
fill-grown r e f l = simp (e, f, l)

-- While the reader is ready, its buffer is below the limit and the source has bytes, a `fill` takes
-- at least one byte, the stream stays the same, and the reader stays ready.
pub fill_lem :
    (r : Reader)
    → IsReady r
    → length r.buffer < max_message
    → 0 < length (concat r.source)
    → Fills r (fill r)
fill_lem r v l p = elim (Bool-cases (length r.buffer == r.capacity)) [
  | inr room ↦
      subst (Fills r) (sym (fill-room r v.more room))
        (fill_room_lem r r.source refl v (ground arith) p)
  | inl full ↦
      let same : length r.buffer ≡ r.capacity = ground arith in
      let grows = grown-IsCapacity r.capacity v.sized (omega arith) in
      let wide = record r { capacity = grown r.capacity } in
      let ready : IsReady wide = record {
        more = v.more;
        fits = omega (arith, grows.2);
        sized = grows.0;
        chunks = v.chunks;
      } in
      let filled = fill_room_lem wide wide.source refl ready (omega (arith, grows.2)) p in
      subst (Fills r) (sym (fill-grown r v.more full grows.1)) (
        filled.0,
        filled.1,
        record {
          ready = filled.2.ready;
          same = filled.2.same;
          style = filled.2.style;
          shorter = filled.2.shorter;
        },
      )
]

-- What a `fill` at the end of the input leaves.
pub record Ended (r r' : Reader) : Type 0 where
  pub at_end : r'.eof ≡ true
  pub same : r'.buffer ≡ r.buffer
  pub empty : r'.source ≡ []
  pub style : r'.framing ≡ r.framing

abbrev pub Ends : Reader → Reader × Bool → Type 0
Ends r out = (r' : Reader) × (out ≡ (r', false)) × Ended r r'

fill_room-end : (r : Reader) → r.source ≡ [] → Ends r (fill_room r)
unfolding fill_room read_source
fill_room-end r e =
    let bytes : (read_source (r.capacity - length r.buffer) r.source).0 ≡ [] =
      ap (λ s. (read_source (r.capacity - length r.buffer) s).0) e in
    let left : (read_source (r.capacity - length r.buffer) r.source).1 ≡ [] =
      ap (λ s. (read_source (r.capacity - length r.buffer) s).1) e in
    (
      record r { eof = true; source = [] },
      rw (bytes, fill_room, left),
      record { at_end = refl; same = refl; empty = refl; style = refl },
    )

-- At the end of the input a `fill` fails, and leaves the buffer.
pub fill-end :
    (r : Reader) → IsReady r → length r.buffer < max_message → r.source ≡ [] → Ends r (fill r)
fill-end r v l e = elim (Bool-cases (length r.buffer == r.capacity)) [
  | inr room ↦ subst (Ends r) (sym (fill-room r v.more room)) (fill_room-end r e)
  | inl full ↦
      let same : length r.buffer ≡ r.capacity = ground arith in
      let grows = grown-IsCapacity r.capacity v.sized (omega arith) in
      let wide = record r { capacity = grown r.capacity } in
      let ended = fill_room-end wide e in
      subst (Ends r) (sym (fill-grown r v.more full grows.1)) (
        ended.0,
        ended.1,
        record {
          at_end = ended.2.at_end;
          same = ended.2.same;
          empty = ended.2.empty;
          style = ended.2.style;
        },
      )
]

-- A source of reads that are not empty has bytes, or has ended.
pub concat_cases :
    (source : List Bytes) → AllNonempty source → (source ≡ []) ⊎ (0 < length (concat source))
concat_cases [] n = inl refl
concat_cases (c ∷ cs) n = inr (omega (arith, n.0, length-append c (concat cs)))
