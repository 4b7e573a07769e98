-- ===== src/Decoder/Jumps.antt =====
-- The jump table lists exactly the decoded JUMPDEST instructions, in rising order.
use solenoid.Base.{
  ℕ, ◌<◌, ◌≡◌, ◌≢◌, refl, none, some, List, [], ◌∷◌, ◌++◌, arith, length, get_elem?, Option-cases,
  Bool-cases, inl, inr, ◌==◌, if◌then◌else◌,
}
use solenoid.Decoder.{
  Instruction, Decoding, decode_at, decode_step, decode_loop, start, decode, resolve_jump,
}
use solenoid.Decoder.Find.{
  find, resolve_jump-eq-find, find-append, get_elem?-append_one, get_elem?-lt,
}
use solenoid.Decoder.Loop.{pos-decode_step, decode_loop_inv}

-- The entry for `key` is the index of a JUMPDEST instruction at that offset.
abbrev pub IsTarget : List Instruction → ℕ → ℕ → Type 0
IsTarget instructions key index =
    (i : Instruction) × (get_elem? instructions index ≡ some i)
    × (i.offset ≡ key)
    × (i.opcode.code ≡ 0x5b)

-- What holds between two rounds.
pub record IsIndexed (s : Decoding) : Type 0 where
  pub behind : (n : ℕ) (i : Instruction) → get_elem? s.instructions n ≡ some i → i.offset < s.pos
  pub sound : (key n : ℕ) → find key s.jumptable ≡ some n → IsTarget s.instructions key n
  pub complete :
      (n : ℕ) (i : Instruction)
      → get_elem? s.instructions n ≡ some i
      → i.opcode.code ≡ 0x5b
      → find i.offset s.jumptable ≡ some n

module _ (s : Decoding) (new : Instruction) (at_pos : new.offset ≡ s.pos) (h : IsIndexed s) where
  not_yet : find s.pos s.jumptable ≡ none
  not_yet = elim (Option-cases (find s.pos s.jumptable)) [
    | inl e ↦ e
    | inr (m, e) ↦ let (i, at, o, _) = h.sound s.pos m e in absurd (omega (arith, h.behind m i at))
  ]

  -- An old target is a target of the longer list.
  old-IsTarget :
      (key n : ℕ) → find key s.jumptable ≡ some n → IsTarget (s.instructions ++ new ∷ []) key n
  old-IsTarget key n e =
      let (i, at, o, c) = h.sound key n e in
      (
        i,
        ground (arith, get_elem?-append_one s.instructions new n, get_elem?-lt s.instructions n at),
        o,
        c,
      )

  new-IsTarget :
      (key n : ℕ)
      → new.opcode.code ≡ 0x5b
      → find key (s.jumptable ++ (s.pos, length s.instructions) ∷ []) ≡ some n
      → IsTarget (s.instructions ++ new ∷ []) key n
  new-IsTarget key n c e = elim (Option-cases (find key s.jumptable)) [
    | inl fresh ↦ (
      new,
      ground (
        arith,
        find-append key s.pos (length s.instructions) s.jumptable,
        get_elem?-append_one s.instructions new n,
      ),
      ground (arith, find-append key s.pos (length s.instructions) s.jumptable),
      c,
    )
    | inr (m, old) ↦
        old-IsTarget key n
          (ground (arith, find-append key s.pos (length s.instructions) s.jumptable))
  ]

  complete_new :
      (n : ℕ) (i : Instruction)
      → get_elem? (s.instructions ++ new ∷ []) n ≡ some i
      → i.opcode.code ≡ 0x5b
      → find i.offset (
          if new.opcode.code == 0x5b
          then s.jumptable ++ (s.pos, length s.instructions) ∷ []
          else s.jumptable)
        ≡ some n
  complete_new n i e j = ground (
    arith,
    get_elem?-append_one s.instructions new n,
    find-append i.offset s.pos (length s.instructions) s.jumptable,
    h.complete n i,
    not_yet,
  )

step-IsIndexed :
    (bytecode : List ℕ) (s : Decoding)
    → s.pos < length bytecode
    → IsIndexed s
    → IsIndexed (decode_step bytecode s)
unfolding decode_step decode_at
step-IsIndexed bytecode s more h =
    let new = decode_at bytecode s.pos in
    record {
      behind = λ n i e. ground (
        arith,
        get_elem?-append_one s.instructions new n,
        h.behind n i,
        pos-decode_step bytecode s more,
      );
      sound = λ key n e. elim (Bool-cases (new.opcode.code == 0x5b)) [
        | inl c ↦ new-IsTarget s new refl h key n (ground arith) (ground arith)
        | inr c ↦ old-IsTarget s new refl h key n (ground arith)
      ];
      complete = complete_new s new refl h;
    }

start-IsIndexed : IsIndexed start
unfolding find
start-IsIndexed = record { behind = λ n i e. cc; sound = λ key n e. cc; complete = λ n i e c. cc }

decode-IsIndexed : (bytecode : List ℕ) → IsIndexed (decode_loop (length bytecode) bytecode start)
decode-IsIndexed bytecode =
    decode_loop_inv IsIndexed bytecode (step-IsIndexed bytecode) (length bytecode) start
      start-IsIndexed

-- In a decoded bytecode, a jump to an offset other than 0 is resolved only to a JUMPDEST instruction that was decoded at
-- this offset.
pub resolve_jump-IsTarget :
    (bytecode : List ℕ) (offset index : ℕ)
    → offset ≢ 0
    → resolve_jump (decode bytecode) offset ≡ some index
    → IsTarget (decode bytecode).instructions offset index
unfolding decode
resolve_jump-IsTarget bytecode offset index h e =
    (decode-IsIndexed bytecode).sound offset index
      (ground (arith, resolve_jump-eq-find (decode bytecode) offset))

-- Every decoded JUMPDEST instruction at an offset other than 0 is found by its offset.
pub resolve_jump_complete :
    (bytecode : List ℕ) (index : ℕ) (i : Instruction)
    → get_elem? (decode bytecode).instructions index ≡ some i
    → i.opcode.code ≡ 0x5b
    → i.offset ≢ 0
    → resolve_jump (decode bytecode) i.offset ≡ some index
unfolding decode
resolve_jump_complete bytecode index i e c h = ground (
  arith,
  resolve_jump-eq-find (decode bytecode) i.offset,
  (decode-IsIndexed bytecode).complete index i e c,
)
