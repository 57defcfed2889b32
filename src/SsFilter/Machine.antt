-- ===== src/SsFilter/Machine.antt =====
-- The machine of the kernel that runs the code of a filter on one socket: what misc/ss.c relies on.
-- Code holds if it is run through to its end, and does not if it jumps behind it. An instruction
-- whose condition holds goes on by its `yes` length, another one by its `no` length; INET_DIAG_BC_JMP
-- always goes by the latter.
use libiproute.Prelude.{
  Bool-cases, inl, inr, ℕ, zero, suc, ◌+◌, ◌-◌, ◌*◌, ◌<◌, ◌≤◌, ◌≡◌, refl, arith, Bool, true, false,
  [], ◌∷◌, leb, ◌==◌, if◌then◌else◌, Bytes, length, length-drop, take, drop,
}
use libiproute.SsFilter.Compile.{bc_jmp}

abbrev pub go : (Bytes → Bool) → ℕ → Bytes → Bool
go run n code = if leb n (length code) then run (drop n code) else false

-- `test` decides the condition of an instruction by its code and its operands.
pub record Machine : Type 0 where
  pub test : ℕ → Bytes → Bool
  pub run : Bytes → Bool
  pub run_end : run [] ≡ true
  pub run_jump :
      (y n0 n1 : ℕ) (rest : Bytes)
      → 4 ≤ n0 + 256 * n1
      → run (bc_jmp ∷ y ∷ n0 ∷ n1 ∷ rest) ≡ go run (n0 + 256 * n1) (bc_jmp ∷ y ∷ n0 ∷ n1 ∷ rest)
  pub run_cond :
      (code y n0 n1 : ℕ) (rest : Bytes)
      → bc_jmp < code
      → 4 ≤ y
      → 4 ≤ n0 + 256 * n1
      → run (code ∷ y ∷ n0 ∷ n1 ∷ rest)
        ≡ go run
            (if test code (take (y - 4) rest) then y else n0 + 256 * n1)
            (code ∷ y ∷ n0 ∷ n1 ∷ rest)

-- A machine for any conditions; a distance of 0 does not hold. One round for each byte is enough.
module _ (test : ℕ → Bytes → Bool) where
  abbrev distance : ℕ → ℕ → ℕ → Bytes → ℕ
  distance code y no_len rest =
      if code == bc_jmp then no_len else if test code (take (y - 4) rest) then y else no_len

  unfoldable pub rounds_of : ℕ → Bytes → Bool
  rounds_of zero code = length code == 0
  rounds_of (suc k) [] = true
  rounds_of (suc k) (code ∷ y ∷ n0 ∷ n1 ∷ rest) =
      let d = distance code y (n0 + 256 * n1) rest in
      if d == 0 then false else go (rounds_of k) d (code ∷ y ∷ n0 ∷ n1 ∷ rest)
  rounds_of (suc k) code = false

  more_rounds :
      (k j d : ℕ) (code : Bytes)
      → ((c : Bytes) → length c < length code → rounds_of k c ≡ rounds_of j c)
      → 0 < length code
      → (if d == 0 then false else go (rounds_of k) d code)
        ≡ (if d == 0 then false else go (rounds_of j) d code)
  more_rounds k j zero code same l = refl
  more_rounds k j (suc d) code same l =
      let positive : (suc d == 0) ≡ false = ground arith in
      elim (Bool-cases (leb (suc d) (length code))) [
        | inl e ↦
            rw (positive, e) (same (drop (suc d) code) (omega (arith, length-drop (suc d) code)))
        | inr e ↦ rw (positive, e)
      ]

  enough_rounds :
      (k j : ℕ) (code : Bytes)
      → length code ≤ k
      → length code ≤ j
      → rounds_of k code ≡ rounds_of j code
  unfolding rounds_of
  enough_rounds zero zero code h i = refl
  enough_rounds zero (suc j) [] h i = refl
  enough_rounds zero (suc j) (c ∷ code) h i = absurd (omega arith)
  enough_rounds (suc k) zero [] h i = refl
  enough_rounds (suc k) zero (c ∷ code) h i = absurd (omega arith)
  enough_rounds (suc k) (suc j) [] h i = refl
  enough_rounds (suc k) (suc j) (c ∷ []) h i = refl
  enough_rounds (suc k) (suc j) (c ∷ y ∷ []) h i = refl
  enough_rounds (suc k) (suc j) (c ∷ y ∷ n0 ∷ []) h i = refl
  enough_rounds (suc k) (suc j) (c ∷ y ∷ n0 ∷ n1 ∷ rest) h i =
      more_rounds k j (distance c y (n0 + 256 * n1) rest) (c ∷ y ∷ n0 ∷ n1 ∷ rest)
        (λ b l. enough_rounds k j b (omega arith) (omega arith)) (omega arith)

  unfoldable pub run_code : Bytes → Bool
  unfolding rounds_of
  run_code code = rounds_of (length code) code

  -- A step, for a distance that is not 0.
  run_step :
      (d k : ℕ) (code : Bytes)
      → 4 ≤ d
      → length code ≤ suc k
      → (if d == 0 then false else go (rounds_of k) d code) ≡ go run_code d code
  unfolding run_code
  run_step d k code h i =
      let positive : (d == 0) ≡ false = ground arith in
      elim (Bool-cases (leb d (length code))) [
        | inl e ↦
            rw (positive, e)
              (enough_rounds k (length (drop d code)) (drop d code)
                (omega (arith, length-drop d code)) (omega arith))
        | inr e ↦ rw (positive, e)
      ]

  pub take_jump :
      (y n0 n1 : ℕ) (rest : Bytes)
      → 4 ≤ n0 + 256 * n1
      → run_code (bc_jmp ∷ y ∷ n0 ∷ n1 ∷ rest)
        ≡ go run_code (n0 + 256 * n1) (bc_jmp ∷ y ∷ n0 ∷ n1 ∷ rest)
  unfolding run_code
  take_jump y n0 n1 rest h =
      run_step (n0 + 256 * n1) (suc (suc (suc (length rest)))) (bc_jmp ∷ y ∷ n0 ∷ n1 ∷ rest) h
        (omega arith)

  pub decide :
      (code y n0 n1 : ℕ) (rest : Bytes)
      → bc_jmp < code
      → 4 ≤ y
      → 4 ≤ n0 + 256 * n1
      → run_code (code ∷ y ∷ n0 ∷ n1 ∷ rest)
        ≡ go run_code
            (if test code (take (y - 4) rest) then y else n0 + 256 * n1)
            (code ∷ y ∷ n0 ∷ n1 ∷ rest)
  unfolding run_code
  decide code y n0 n1 rest c h i =
      let other : (code == bc_jmp) ≡ false = ground arith in
      rw other (
        run_step (if test code (take (y - 4) rest) then y else n0 + 256 * n1)
          (suc (suc (suc (length rest)))) (code ∷ y ∷ n0 ∷ n1 ∷ rest) (ground arith) (omega arith))

  pub run_nothing : run_code [] ≡ true
  unfolding run_code
  run_nothing = refl

  unfoldable pub machine_of : Machine
  machine_of = record {
    test = test;
    run = run_code;
    run_end = run_nothing;
    run_jump = take_jump;
    run_cond = decide;
  }
