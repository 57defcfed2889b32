-- ===== src/SsFilter/Laws.antt =====
-- The code that misc/ss.c hands to the kernel for a filter, and the filter that it runs itself.
use libiproute.Prelude.{
  ℕ, ◌+◌, ◌%◌, ◌^◌, ◌<◌, ◌≡◌, ◌↔◌, refl, sym, ◌∙◌, arith, Bool, true, false, some, [], ◌++◌,
  append-nil, if◌then◌else◌, Bytes, Bool-cases, inl, inr,
}
use libiproute.SsFilter.{
  Filter, s_auto, d_cond, s_cond, d_ge, d_le, s_ge, s_le, dev_cond, mark_mask, conj, disj, neg,
  System, SockStat, run_ssfilter,
}
use libiproute.Prelude.Int.{wrapped}
use libiproute.SsFilter.Compile.{
  bc_s_ge, bc_s_le, bc_d_ge, bc_d_le, bc_auto, bc_s_cond, bc_d_cond, bc_mark_cond, op, le32,
  hostcond, ssfilter_bytecompile,
}
use libiproute.SsFilter.Code.{IsRunnable, code_of, code_size, length-code_size}
use libiproute.SsFilter.Machine.{Machine, go}
use libiproute.SsFilter.Exits.{meaning, code_of-Exits}
use libiproute.SsFilter.Whole.{has_device, ssfilter_bytecompile-code_of, code_of-ne-nil}

-- The filter with the first address of every host condition alone.
unfoldable pub first_addresses : Filter → Filter
first_addresses (d_cond a rest) = d_cond a []
first_addresses (s_cond a rest) = s_cond a []
first_addresses (conj f g) = conj (first_addresses f) (first_addresses g)
first_addresses (disj f g) = disj (first_addresses f) (first_addresses g)
first_addresses (neg f) = neg (first_addresses f)
first_addresses f = f

-- A filter whose code has less than 2^16 - 4 bytes without its conditions on devices:
-- ssfilter_bytecompile yields the length 0, by which ss knows that the kernel cannot filter, exactly
-- if the filter has such a condition.
pub ssfilter_bytecompile-device :
    (pad : ℕ × ℕ) (f : Filter)
    → code_size f + 4 < 2 ^ 16
    → (ssfilter_bytecompile pad f ≡ some []) ↔ (has_device f ≡ true)
ssfilter_bytecompile-device pad f h = elim (Bool-cases (has_device f)) [
  | inl d ↦ (λ e. d, λ e. rw d at (ssfilter_bytecompile-code_of pad f h))
  | inr d ↦
      (λ e. absurd (empty d (rw d at (sym (ssfilter_bytecompile-code_of pad f h) ∙ e))), λ e. cc)
]
  where
    empty : has_device f ≡ false → ¬ (some (code_of pad f 0) ≡ some [])
    empty d e =
        let nil : code_of pad f 0 ≡ [] = cc in
        let wrong : true ≡ false = rw nil at (code_of-ne-nil pad f d) in cc

IsRunnable→has_device : (f : Filter) → IsRunnable f → has_device f ≡ false
unfolding has_device
IsRunnable→has_device s_auto r = refl
IsRunnable→has_device (d_cond a rest) r = refl
IsRunnable→has_device (s_cond a rest) r = refl
IsRunnable→has_device (d_ge a) r = refl
IsRunnable→has_device (d_le a) r = refl
IsRunnable→has_device (s_ge a) r = refl
IsRunnable→has_device (s_le a) r = refl
IsRunnable→has_device (dev_cond a) r = absurd r
IsRunnable→has_device (mark_mask a) r = refl
IsRunnable→has_device (conj f g) (rf, rg) =
    rw (IsRunnable→has_device f rf, IsRunnable→has_device g rg)
IsRunnable→has_device (disj f g) (rf, rg) =
    rw (IsRunnable→has_device f rf, IsRunnable→has_device g rg)
IsRunnable→has_device (neg f) r = IsRunnable→has_device f r

module _ (m : Machine) (pad : ℕ × ℕ) (sys : System) (s : SockStat) where
  -- The machine decides each condition as the program does, of a host condition the first address.
  abbrev pub Agrees : Filter → Type 0
  Agrees s_auto = m.test bc_auto [] ≡ run_ssfilter sys s s_auto
  Agrees (d_cond a rest) =
      m.test bc_d_cond (hostcond pad.0 pad.1 a) ≡ run_ssfilter sys s (d_cond a [])
  Agrees (s_cond a rest) =
      m.test bc_s_cond (hostcond pad.0 pad.1 a) ≡ run_ssfilter sys s (s_cond a [])
  Agrees (d_ge x) = m.test bc_d_ge (op 0 0 (wrapped 16 x.port)) ≡ run_ssfilter sys s (d_ge x)
  Agrees (d_le x) = m.test bc_d_le (op 0 0 (wrapped 16 x.port)) ≡ run_ssfilter sys s (d_le x)
  Agrees (s_ge x) = m.test bc_s_ge (op 0 0 (wrapped 16 x.port)) ≡ run_ssfilter sys s (s_ge x)
  Agrees (s_le x) = m.test bc_s_le (op 0 0 (wrapped 16 x.port)) ≡ run_ssfilter sys s (s_le x)
  Agrees (dev_cond a) = Unit
  Agrees (mark_mask a) =
      m.test bc_mark_cond (le32 (a.mark % 2 ^ 32) ++ le32 (a.mask % 2 ^ 32))
      ≡ run_ssfilter sys s (mark_mask a)
  Agrees (conj f g) = Agrees f × Agrees g
  Agrees (disj f g) = Agrees f × Agrees g
  Agrees (neg f) = Agrees f

  meaning-run_ssfilter :
      (f : Filter)
      → IsRunnable f
      → Agrees f
      → meaning m pad f ≡ run_ssfilter sys s (first_addresses f)
  unfolding meaning first_addresses run_ssfilter
  meaning-run_ssfilter s_auto r h = h
  meaning-run_ssfilter (d_cond a rest) r h = h
  meaning-run_ssfilter (s_cond a rest) r h = h
  meaning-run_ssfilter (d_ge x) r h = h
  meaning-run_ssfilter (d_le x) r h = h
  meaning-run_ssfilter (s_ge x) r h = h
  meaning-run_ssfilter (s_le x) r h = h
  meaning-run_ssfilter (dev_cond a) r h = absurd r
  meaning-run_ssfilter (mark_mask a) r h = h
  meaning-run_ssfilter (conj f g) (rf, rg) (hf, hg) =
      rw (meaning-run_ssfilter f rf hf, meaning-run_ssfilter g rg hg)
  meaning-run_ssfilter (disj f g) (rf, rg) (hf, hg) =
      rw (meaning-run_ssfilter f rf hf, meaning-run_ssfilter g rg hg)
  meaning-run_ssfilter (neg f) r h = rw (meaning-run_ssfilter f r h)

  -- A filter without conditions on devices, whose code has less than 2^16 - 4 bytes, on a machine that
  -- decides the single conditions as run_ssfilter does: ssfilter_bytecompile does not abort, and the
  -- machine finds with its code what run_ssfilter finds for the filter in which every host condition
  -- is left with its first address.
  pub ssfilter_bytecompile-run_ssfilter :
      (f : Filter)
      → IsRunnable f
      → code_size f + 4 < 2 ^ 16
      → Agrees f
      → (code : Bytes) × (ssfilter_bytecompile pad f ≡ some code)
        × (m.run code ≡ run_ssfilter sys s (first_addresses f))
  ssfilter_bytecompile-run_ssfilter f r h agree = (
    code_of pad f 0,
    rw (IsRunnable→has_device f r) at (ssfilter_bytecompile-code_of pad f h),
    rw append-nil at (code_of-Exits m pad f 0 r (omega (arith, length-code_size pad f 0)) [])
        ∙ at_end (meaning m pad f)
        ∙ meaning-run_ssfilter f r agree,
  )
    where
      at_end : (v : Bool) → (if v then m.run [] else go m.run 4 []) ≡ v
      at_end true = m.run_end
      at_end false = refl
