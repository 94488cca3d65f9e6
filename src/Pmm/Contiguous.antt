-- ===== src/Pmm/Contiguous.antt =====
-- `pmm_alloc_frames_contiguous` of src/pmm.c: the first run of free frames that is long enough,
-- or a proof that there is none.
use cool_os.Prelude.{
  ℕ, zero, suc, ◌+◌, ◌*◌, ◌%◌, ◌^◌, ◌≤◌, ◌<◌, ◌≡◌, ◌≢◌, ◌⊎◌, inl, inr, refl, true, false, ◌&&◌,
  ◌||◌, some, arith, ltb, leb, ◌==◌, if◌then◌else◌, Bool-cases, ℕ_discrete, dec_lt,
}
use cool_os.Pmm.{Pmm, page_size, take_frame, take_run, search_run, alloc_frames_contiguous}
use cool_os.Pmm.Bitmap.{bitmap_test}
use cool_os.Pmm.Invariant.{IsValid, used, take_frame-IsValid, used-take_frame}

-- `count` free frames of the machine from `p` on.
pub record IsRun (s : Pmm) (count p : ℕ) : Type 0 where
  pub inside : p + count ≤ s.frame_count
  pub free : (g : ℕ) → p ≤ g → g < p + count → used s g ≡ false

-- A used frame among the `count` from `p` on.
abbrev pub Broken : Pmm → ℕ → ℕ → Type 0
Broken s count p = (g : ℕ) × (p ≤ g) × (g < p + count) × (used s g ≡ true)

pub data Search (s : Pmm) (count : ℕ) : Type 0 where
  found : (p : ℕ) → IsRun s count p → ((q : ℕ) → q < p → Broken s count q) → Search s count
  missing : ((p : ℕ) → p + count ≤ s.frame_count → Broken s count p) → Search s count

-- What the search returns in either case.
pub outcome : {s : Pmm} {count : ℕ} → Search s count → ℕ × Pmm
outcome {s} {count} (found p r first) = (p * page_size, take_run count p s)
outcome {s} {count} (missing none_long) = (0, s)

module _ (s : Pmm) (count : ℕ) (small : s.frame_count ≤ 2 ^ 52) where
  -- `start` is where the run of free frames that ends before `frame` begins.
  search_run-outcome :
      (n frame run_start run_length start : ℕ)
      → frame + n ≡ s.frame_count
      → start + run_length ≡ frame
      → run_length < count
      → (run_length ≢ 0 → run_start ≡ start)
      → ((g : ℕ) → start ≤ g → g < frame → used s g ≡ false)
      → ((q : ℕ) → q < start → Broken s count q)
      → (o : Search s count) × (search_run n frame run_start run_length count s ≡ some (outcome o))
  unfolding search_run used outcome
  search_run-outcome zero frame rs r start e at short named free first =
      (missing (λ p fits. first p (omega arith)), refl)
  search_run-outcome (suc n) frame rs r start e at short named free first =
      elim (Bool-cases (bitmap_test s.bitmap frame)) [
        | inl taken ↦ rw taken (
            search_run-outcome n (frame + 1) rs 0 (frame + 1) (omega arith) (omega arith)
              (omega arith) (λ ne. absurd (ne refl)) (λ g lo hi. absurd (omega arith))
              (λ q lt. elim (dec_lt q start) [
                | yes before ↦ first q before
                | no after ↦ (frame, omega arith, omega arith, taken)
              ]))
        | inr clear ↦
            let begin : (if r == 0 then frame else rs) ≡ start = ground (arith, named) in
            let grown =
              λ (g : ℕ) (lo : start ≤ g) (hi : g < frame + 1). free_to_next g lo hi clear in
            rw (clear, begin)
              (elim (Bool-cases (r + 1 == count)) [
                | inl long ↦
                    let address : start * page_size % 2 ^ 64 ≡ start * page_size = omega arith in
                    let aligned : (start * page_size % page_size == 0) ≡ true = ground arith in
                    (
                      found start
                          (record {
                            inside = ground arith;
                            free = λ g lo hi. grown g lo (ground arith);
                          })
                          first,
                      rw (long, address, aligned),
                    )
                | inr more ↦ rw more (
                    search_run-outcome n (frame + 1) start (r + 1) start (omega arith) (omega arith)
                      (ground arith) (λ ne. refl) grown first)
              ])
      ]
    where
      free_to_next : (g : ℕ) → start ≤ g → g < frame + 1 → used s frame ≡ false → used s g ≡ false
      free_to_next g lo hi clear = elim (ℕ_discrete g frame) [
        | yes same ↦ rw same clear
        | no ne ↦ free g lo (omega arith)
      ]

used-take_run :
    (n p : ℕ) {s : Pmm}
    → IsValid s
    → p + n ≤ s.frame_count
    → ((g : ℕ) → p ≤ g → g < p + n → used s g ≡ false)
    → IsValid (take_run n p s)
      × ((take_run n p s).free_frames + n ≡ s.free_frames)
      × ((g : ℕ) → used (take_run n p s) g ≡ (leb p g && ltb g (p + n) || used s g))
unfolding take_run
used-take_run zero p v fits free = (v, omega arith, λ g. ground arith)
used-take_run (suc n) p {s} v fits free =
    let first = free p (omega arith) (omega arith) in
    let now = take_frame-IsValid v p (omega arith) first in
    let bits = used-take_frame v p (omega arith) in
    let rest =
      used-take_run n (p + 1) {s = take_frame s p} now.0 (unfold take_frame in omega arith)
        (λ g lo hi. ground (arith, bits g, free g)) in
    (rest.0, omega (arith, rest.1, now.1), λ g. ground (arith, rest.2 g, bits g))

-- A request for two frames or more, on a valid state, finds the first run of free frames of that
-- length, marks just that run as used, keeps the state valid and takes its length off the counter;
-- or it returns 0 and the unchanged state, and then every stretch of that length has a used frame.
pub alloc_frames_contiguous_lem :
    (count : ℕ) (s : Pmm)
    → 2 ≤ count
    → IsValid s
    → ((p : ℕ) × IsRun s count p
        × ((q : ℕ) → q < p → Broken s count q)
        × (alloc_frames_contiguous count s ≡ some (p * page_size, take_run count p s))
        × IsValid (take_run count p s)
        × ((take_run count p s).free_frames + count ≡ s.free_frames)
        × ((g : ℕ) → used (take_run count p s) g ≡ (leb p g && ltb g (p + count) || used s g)))
      ⊎ (((p : ℕ) → p + count ≤ s.frame_count → Broken s count p)
          × (alloc_frames_contiguous count s ≡ some (0, s)))
unfolding alloc_frames_contiguous outcome
alloc_frames_contiguous_lem count s two v =
    let not_zero : (count == 0) ≡ false = ground arith in
    let not_one : (count == 1) ≡ false = ground arith in
    rw (not_zero, not_one)
      (by_search (
        search_run-outcome s count v.addressable s.frame_count 0 0 0 0 (omega arith) refl
          (omega arith) (λ ne. refl) (λ g lo hi. absurd (omega arith)) (λ q lt. elim lt [ ])))
  where
    by_search :
        ((o : Search s count) × (search_run s.frame_count 0 0 0 count s ≡ some (outcome o)))
        → ((p : ℕ) × IsRun s count p
            × ((q : ℕ) → q < p → Broken s count q)
            × (search_run s.frame_count 0 0 0 count s ≡ some (p * page_size, take_run count p s))
            × IsValid (take_run count p s)
            × ((take_run count p s).free_frames + count ≡ s.free_frames)
            × ((g : ℕ) → used (take_run count p s) g ≡ (leb p g && ltb g (p + count) || used s g)))
          ⊎ (((p : ℕ) → p + count ≤ s.frame_count → Broken s count p)
              × (search_run s.frame_count 0 0 0 count s ≡ some (0, s)))
    by_search (found p r first, e) =
        let taken = used-take_run count p v r.inside r.free in
        inl (p, r, first, e, taken.0, taken.1, taken.2)
    by_search (missing none_long, e) = inr (none_long, e)
