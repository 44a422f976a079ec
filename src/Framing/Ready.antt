-- ===== src/Framing/Ready.antt =====
-- adapter/stdio_framing.c: what a reader is before the end of its input, the growth of its buffer, and
-- one read of its source.
use displayxr_mcp.Prelude.{
  ℕ, zero, suc, ◌+◌, ◌-◌, ◌*◌, ◌≤◌, ◌<◌, ◌≡◌, refl, sym, ap, ◌∙◌, subst, false, Option, some, List,
  [], ◌∷◌, ◌++◌, length, take, drop, take_all, take-append-drop, length-take, length-drop,
  append_assoc, ltb, Bytes, arith, Bool-cases, inl, inr, ◌⊎◌,
}
use displayxr_mcp.Framing.{Style, concat, stream, Reader, read_source, grown, max_message}

-- No read of the source is empty.
abbrev pub AllNonempty : List Bytes → Type 0
AllNonempty [] = Unit {0}
AllNonempty (c ∷ cs) = (0 < length c) × AllNonempty cs

-- The capacities that the buffer goes through.
abbrev capacities : ℕ → ℕ
capacities zero = 4096
capacities (suc k) = capacities k * 2

abbrev pub IsCapacity : ℕ → Type 0
IsCapacity c = (c ≡ 0) ⊎ ((k : ℕ) × (k ≤ 12) × (c ≡ capacities k))

-- A reader before the end of its input.
pub record IsReady (r : Reader) : Type 0 where
  pub more : r.eof ≡ false
  pub fits : length r.buffer ≤ r.capacity
  pub sized : IsCapacity r.capacity
  pub chunks : AllNonempty r.source

-- What a successful `fill` of `r` leaves.
pub record Filled (r r' : Reader) : Type 0 where
  pub ready : IsReady r'
  pub same : stream r' ≡ stream r
  pub style : r'.framing ≡ r.framing
  pub shorter : length (concat r'.source) < length (concat r.source)

-- A message that is returned: it is taken off the stream, and the reader stays ready.
pub record Returns (style : Style) (message rest : Bytes) (out : Reader × Option Bytes)
    : Type 0 where
  pub message_is : out.1 ≡ some message
  pub ready : IsReady out.0
  pub left : stream out.0 ≡ rest
  pub style_is : out.0.framing ≡ style

-- The bytes of one read, and the source behind it.
pub record Taken (m : ℕ) (c : Bytes) (cs : List Bytes) (r : Bytes × List Bytes) : Type 0 where
  pub some_bytes : 0 < length r.0
  pub room : length r.0 ≤ suc m
  pub all : r.0 ++ concat r.1 ≡ c ++ concat cs
  pub left : AllNonempty r.1

pub take_chunk :
    (m : ℕ) (c : Bytes) (cs : List Bytes)
    → 0 < length c
    → AllNonempty cs
    → Taken m c cs (read_source (suc m) (c ∷ cs))
unfolding read_source
take_chunk m c cs p n = elim (Bool-cases (ltb (suc m) (length c))) [
  | inl long ↦ rw long (record {
    some_bytes = ground (arith, length-take (suc m) c);
    room = omega (arith, length-take (suc m) c);
    all =
        sym (append_assoc (take (suc m) c) (drop (suc m) c) (concat cs))
        ∙ ap (λ b. b ++ concat cs) (take-append-drop (suc m) c);
    left = (ground (arith, length-drop (suc m) c), n);
  })
  | inr short ↦
      let whole : take (suc m) c ≡ c = take_all (suc m) c (ground arith) in
      rw short (record {
        some_bytes = ground (arith, length-take (suc m) c);
        room = omega (arith, length-take (suc m) c);
        all = ap (λ b. b ++ concat cs) whole;
        left = n;
      })
]

capacities_mono : (k d : ℕ) → capacities k ≤ capacities (k + d)
capacities_mono k zero =
    let same : k ≡ k + 0 = omega arith in
    subst (λ j. capacities k ≤ capacities j) same (omega arith)
capacities_mono k (suc d) =
    let next : suc (k + d) ≡ k + suc d = omega arith in
    subst (λ j. capacities k ≤ capacities j) next (omega (arith, capacities_mono k d))

capacities-ge : (k : ℕ) → 4096 ≤ capacities k
capacities-ge zero = omega arith
capacities-ge (suc k) = omega (arith, capacities-ge k)

capacities-le : (k : ℕ) → k ≤ 12 → capacities k ≤ max_message
capacities-le k h =
    let top : k + (12 - k) ≡ 12 = omega arith in
    subst (λ j. capacities k ≤ capacities j) top (capacities_mono k (12 - k))

grown_pos : (c : ℕ) → 0 < c → grown c ≡ c * 2
unfolding grown
grown_pos zero h = absurd (omega arith)
grown_pos (suc c) h = refl

-- A buffer below the limit can grow.
abbrev CanGrow : ℕ → Type 0
CanGrow c = IsCapacity (grown c) × (ltb (max_message + 4096) (grown c) ≡ false) × (c < grown c)

pub grown-IsCapacity : (c : ℕ) → IsCapacity c → c < max_message → CanGrow c
unfolding grown
grown-IsCapacity c (inl z) l =
    subst CanGrow (sym z) (inr (0, omega arith, refl), ground arith, omega arith)
grown-IsCapacity c (inr (k, h, e)) l =
    let positive : 0 < c = omega (arith, capacities-ge k) in
    let double = grown_pos c positive in
    let below : suc k ≤ 12 = elim (Bool-cases (ltb k 12)) [
      | inl y ↦ ground arith
      | inr y ↦ let last : k ≡ 12 = ground arith in absurd (omega (arith, e ∙ ap capacities last))
    ] in
    let size : grown c ≡ capacities (suc k) = double ∙ ap (λ n. n * 2) e in
    (
      inr (suc k, below, size),
      ground (arith, size, capacities-le (suc k) below),
      omega (arith, double),
    )
