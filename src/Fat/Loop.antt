-- ===== src/Fat/Loop.antt =====
-- The loop of `fat_read` of src/fat32.c returns the bytes that lie ahead.
use cool_os.Prelude.{
  ℕ, zero, suc, ◌+◌, ◌-◌, ◌%◌, ◌^◌, ◌≤◌, ◌<◌, ◌≡◌, refl, subst, ap, ◌∙◌, true, false, inl, inr,
  some, Option, List, [], arith, leb, ◌==◌, take, drop, length, length-drop, Bool-cases, ℕ_discrete,
}
use cool_os.Fat.{Drive, Volume, File, eoc_min}
use cool_os.Fat.Read.{advance, bytes_to_copy, read_loop}
use cool_os.Fat.Bytes.{drop-drop, take-split}
use cool_os.Fat.Contents.{IsMounted, Unread, copied-bounds, turn}

-- The fields of an open file's entry that reading does not decide, and how far it has come.
pub record Moved (f f' : File) (count : ℕ) : Type 0 where
  pub position : f'.position ≡ f.position + count
  pub file_size : f'.file_size ≡ f.file_size
  pub first_cluster : f'.first_cluster ≡ f.first_cluster
  pub in_use : f'.in_use ≡ f.in_use

advance-Moved :
    (d : Drive) (v : Volume) (k : ℕ) (f : File)
    → f.position + k < 2 ^ 32
    → Moved f (advance d v k f) k
unfolding advance
advance-Moved d v k f small =
    elim (Bool-cases (leb v.bytes_per_cluster ((f.cluster_offset + k) % 2 ^ 32))) [
      | inl over ↦
          rw over (record {
            position = omega arith;
            file_size = refl;
            first_cluster = refl;
            in_use = refl;
          })
      | inr within ↦
          rw within (record {
            position = omega arith;
            file_size = refl;
            first_cluster = refl;
            in_use = refl;
          })
    ]

-- What the loop returns, and where it leaves the file.
pub record Reads (d : Drive) (v : Volume) (f : File) (bytes : List ℕ) (left : ℕ)
    (run : Option (Option (List ℕ) × File)) : Type 0 where
  pub file : File
  pub returns : run ≡ some (some (take left bytes), file)
  pub unread : Unread d v file (drop left bytes)
  pub moved : Moved f file left

-- Nothing to read.
Reads-nothing :
    {d : Drive} {v : Volume} {f : File} {bytes : List ℕ} {left : ℕ}
    → left ≡ 0
    → Unread d v f bytes
    → Reads d v f bytes left (some (some [], f))
Reads-nothing {d} {v} {f} {bytes} {left} e u = rw e (record {
  file = f;
  returns = refl;
  unread = u;
  moved = record { position = omega arith; file_size = refl; first_cluster = refl; in_use = refl };
})

pub read_loop-Reads :
    (n : ℕ) (d : Drive) (v : Volume)
    → IsMounted v
    → (left : ℕ) (f : File) (bytes : List ℕ) → left ≤ n
    → left ≤ length bytes
    → f.position + left < 2 ^ 32
    → Unread d v f bytes
    → Reads d v f bytes left (read_loop n d v left f)
unfolding read_loop
read_loop-Reads zero d v mounted left f bytes fuel enough small u =
    let e : left ≡ 0 = omega arith in
    let stop : (left == 0) ≡ true = ground arith in rw stop (Reads-nothing e u)
read_loop-Reads (suc n) d v mounted left f bytes fuel enough small u = elim (ℕ_discrete left 0) [
  | yes e ↦ let stop : (left == 0) ≡ true = ground arith in rw stop (Reads-nothing e u)
  | no some_left ↦
      let k = bytes_to_copy v f left in
      let bounds = copied-bounds v mounted f left (omega arith) u.inside in
      let (below, sector, loaded, copied, next) =
        turn d v mounted f bytes left (omega arith) enough u in
      let step = advance-Moved d v k f (omega arith) in
      let rest =
        read_loop-Reads n d v mounted (left - k) (advance d v k f) (drop k bytes) (omega arith)
          (omega (arith, length-drop k bytes)) (omega (arith, step.position)) next in
      let go : (left == 0) ≡ false = ground arith in
      let chained : leb eoc_min f.current_cluster ≡ false = ground arith in
      let total : k + (left - k) ≡ left = omega arith in
      record {
        file = rest.file;
        returns =
            rw (go, chained, loaded, rest.returns, copied)
              (ap (λ x. some (some x, rest.file)) (take-split k left bytes bounds.1));
        unread =
            subst (Unread d v rest.file)
              (drop-drop (left - k) k bytes ∙ ap (λ x. drop x bytes) total) rest.unread;
        moved = record {
          position = omega (arith, rest.moved.position, step.position);
          file_size = rest.moved.file_size ∙ step.file_size;
          first_cluster = rest.moved.first_cluster ∙ step.first_cluster;
          in_use = rest.moved.in_use ∙ step.in_use;
        };
      }
]
