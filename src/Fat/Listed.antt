-- ===== src/Fat/Listed.antt =====
-- The root directory in src/fat32.c: what the walk over it lists stands on the drive.
use cool_os.Prelude.{
  ℕ, zero, suc, ◌+◌, ◌*◌, ◌%◌, ◌^◌, ◌<◌, ◌≤◌, ◌≡◌, refl, inl, inr, false, Option, none, some, List,
  [], ◌∷◌, ◌++◌, All, arith, leb, ◌==◌, if◌then◌else◌, take, drop, Bool-cases,
}
use cool_os.Fat.{Drive, Volume, block_read, get_entry, cluster_to_sector, eoc_min, u8}
use cool_os.Fat.Directory.{
  dirent, is_skipped, scan_sector, scan_cluster, walk, Stop, no_fuel, directory_end, read_error,
  goes_on,
}

-- An entry of 32 bytes in a sector of the drive, which is not free, not deleted, no part of a long name
-- and no volume label.
pub record IsListed (d : Drive) (e : List ℕ) : Type 0 where
  pub sector : ℕ
  pub index : ℕ
  pub bytes : List ℕ
  pub delivered : block_read d sector ≡ some bytes
  pub inside : index < 16
  pub entry : e ≡ take 32 (drop (index * 32) bytes)
  pub not_end : (u8 e 0 == 0) ≡ false
  pub not_skipped : is_skipped e ≡ false

All-append : (P : List ℕ → Type 0) (a b : List (List ℕ)) → All P a → All P b → All P (a ++ b)
All-append P [] b h k = k
All-append P (x ∷ a) b h k = (h.0, All-append P a b h.1 k)

pub All-middle :
    (P : List ℕ → Type 0) (a : List (List ℕ)) (x : List ℕ) (b : List (List ℕ))
    → All P (a ++ x ∷ b)
    → P x
All-middle P [] x b h = h.0
All-middle P (y ∷ a) x b h = All-middle P a x b h.1

module _ (d : Drive) where
  scan_sector-IsListed :
      (n i sector : ℕ) (b : List ℕ)
      → block_read d sector ≡ some b
      → i + n ≤ 16
      → All (IsListed d) (scan_sector n i b).0
  unfolding scan_sector
  scan_sector-IsListed zero i sector b read inside = tt
  scan_sector-IsListed (suc n) i sector b read inside =
      let e = dirent b i in
      let rest = scan_sector-IsListed n (i + 1) sector b read (omega (arith, inside)) in
      elim (Bool-cases (u8 e 0 == 0)) [
        | inl over ↦ rw over tt
        | inr more ↦ rw more (elim (Bool-cases (is_skipped e)) [
          | inl pass ↦ rw pass rest
          | inr listed ↦ rw listed (
            record {
              sector = sector;
              index = i;
              bytes = b;
              delivered = read;
              inside = omega (arith, inside);
              entry = refl;
              not_end = more;
              not_skipped = listed;
            },
            rest,
          )
        ])
      ]

  scan_cluster-IsListed : (n sector : ℕ) → All (IsListed d) (scan_cluster n sector d).0
  unfolding scan_cluster
  scan_cluster-IsListed zero sector = tt
  scan_cluster-IsListed (suc n) sector =
      by_read (scan_cluster-IsListed n ((sector + 1) % 2 ^ 32)) (block_read d sector) refl
    where
      by_read :
          All (IsListed d) (scan_cluster n ((sector + 1) % 2 ^ 32) d).0
          → (o : Option (List ℕ)) → block_read d sector ≡ o
          → All
              (IsListed d)
              (elim o as (λ x. List (List ℕ) × Stop) [
                | none ↦ ([], read_error)
                | some b ↦
                    let here = scan_sector 16 0 b in
                    let rest = scan_cluster n ((sector + 1) % 2 ^ 32) d in
                    if here.1 then (here.0, directory_end) else (here.0 ++ rest.0, rest.1)
              ]).0
      by_read rest none is = tt
      by_read rest (some b) is =
          let here = scan_sector-IsListed 16 0 sector b is (omega arith) in
          elim (Bool-cases (scan_sector 16 0 b).1) [
            | inl over ↦ rw over here
            | inr more ↦ rw more (
                All-append (IsListed d) (scan_sector 16 0 b).0
                  (scan_cluster n ((sector + 1) % 2 ^ 32) d).0 here rest)
          ]

  pub walk-IsListed : (n : ℕ) (v : Volume) (cluster : ℕ) → All (IsListed d) (walk n d v cluster).0
  unfolding walk
  walk-IsListed zero v cluster = tt
  walk-IsListed (suc n) v cluster = elim (Bool-cases (leb eoc_min cluster)) [
    | inl over ↦ rw over tt
    | inr more ↦ rw more (
        by_stop (walk n d v (get_entry d v cluster)) (walk-IsListed n v (get_entry d v cluster))
          (scan_cluster v.sectors_per_cluster (cluster_to_sector v cluster) d)
          (scan_cluster-IsListed v.sectors_per_cluster (cluster_to_sector v cluster)))
  ]
    where
      by_stop :
          (rest : List (List ℕ) × Stop)
          → All (IsListed d) rest.0
          → (here : List (List ℕ) × Stop) → All (IsListed d) here.0
          → All
              (IsListed d)
              (elim here.1 as (λ x. List (List ℕ) × Stop) [
                | goes_on ↦ (here.0 ++ rest.0, rest.1)
                | directory_end ↦ here
                | read_error ↦ here
                | no_fuel ↦ here
              ]).0
      by_stop rest h (l, goes_on) k = All-append (IsListed d) l rest.0 k h
      by_stop rest h (l, directory_end) k = k
      by_stop rest h (l, read_error) k = k
      by_stop rest h (l, no_fuel) k = k
