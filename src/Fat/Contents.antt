-- ===== src/Fat/Contents.antt =====
-- What the clusters of a file of src/fat32.c hold, and one turn of the loop of `fat_read`.
use cool_os.Prelude.{
  ℕ, ◌+◌, ◌*◌, ◌/◌, ◌%◌, ◌^◌, ◌≤◌, ◌<◌, ◌≡◌, refl, sym, subst, ap, ◌∙◌, inl, inr, some, List, [],
  ◌∷◌, ◌++◌, arith, leb, take, drop, length, length-drop, Bool-cases,
}
use cool_os.Fat.{Drive, Volume, File, block_read, get_entry, cluster_to_sector, eoc_min}
use cool_os.Fat.Read.{advance, bytes_to_copy, sector_of}
use cool_os.Fat.Bytes.{
  drop-nil, drop-drop, take-drop-take, take-append_le, drop-append_le, drop_all,
}

-- A volume with sectors of 512 bytes, as `fat_mount` leaves it, and at least one to a cluster.
pub record IsMounted (v : Volume) : Type 0 where
  pub sector_size : v.bytes_per_sector ≡ 512
  pub cluster_size : v.bytes_per_cluster ≡ 512 * v.sectors_per_cluster
  pub some_sector : 0 < v.sectors_per_cluster
  pub few_sectors : v.sectors_per_cluster < 256

unfoldable pub concat : List (List ℕ) → List ℕ
concat [] = []
concat (b ∷ bs) = b ++ concat bs

module _ (d : Drive) (v : Volume) where
  -- The sectors of a cluster can be read, and hold `bytes`.
  pub record Cluster (c : ℕ) (bytes : List ℕ) : Type 0 where
    pub full : length bytes ≡ v.bytes_per_cluster
    pub sectors :
        (i : ℕ)
        → i < v.sectors_per_cluster
        → block_read d ((cluster_to_sector v c + i) % 2 ^ 32)
          ≡ some (take 512 (drop (512 * i) bytes))

  -- The chain of clusters from `c` on holds `blocks`, one for each, and ends.
  abbrev pub Stored : ℕ → List (List ℕ) → Type 0
  Stored c [] = eoc_min ≤ c
  Stored c (b ∷ bs) = (c < eoc_min) × Cluster c b × Stored (get_entry d v c) bs

  -- What an open file still has in front of it: `bytes`, to the end of its last cluster.
  pub record Unread (f : File) (bytes : List ℕ) : Type 0 where
    pub blocks : List (List ℕ)
    pub stored : Stored f.current_cluster blocks
    pub inside : f.cluster_offset < v.bytes_per_cluster
    pub ahead : drop f.cluster_offset (concat blocks) ≡ bytes

-- How many bytes one turn copies.
module _ (v : Volume) (mounted : IsMounted v) (f : File) (left : ℕ) where
  pub copied-bounds :
      0 < left
      → f.cluster_offset < v.bytes_per_cluster
      → (0 < bytes_to_copy v f left)
        × (bytes_to_copy v f left ≤ left)
        × (bytes_to_copy v f left + f.cluster_offset % 512 ≤ 512)
        × (f.cluster_offset / 512 < v.sectors_per_cluster)
        × (f.cluster_offset + bytes_to_copy v f left ≤ v.bytes_per_cluster)
  copied-bounds some_left inside =
      let size = mounted.sector_size in let cluster = mounted.cluster_size in rw size (omega arith)

-- A turn on a file whose cluster holds `b` and whose further clusters hold `rest`.
module _ (d : Drive) (v : Volume) (mounted : IsMounted v) (f : File) (k : ℕ) (b rest : List ℕ) where
  copied-bytes :
      length b ≡ v.bytes_per_cluster
      → k + f.cluster_offset % 512 ≤ 512
      → f.cluster_offset + k ≤ v.bytes_per_cluster
      → take k (drop (f.cluster_offset % 512) (take 512 (drop (512 * (f.cluster_offset / 512)) b)))
        ≡ take k (drop f.cluster_offset (b ++ rest))
  copied-bytes full narrow fits =
      let o = f.cluster_offset in
      let whole : 512 * (o / 512) + o % 512 ≡ o = omega arith in
      take-drop-take k (o % 512) 512 (drop (512 * (o / 512)) b) narrow
      ∙ ap (take k) (drop-drop (o % 512) (512 * (o / 512)) b ∙ ap (λ n. drop n b) whole)
      ∙ sym (
          ap (take k) (drop-append_le o b rest (omega arith))
          ∙ take-append_le k (drop o b) rest (omega (arith, length-drop o b)))

  at_sector :
      Cluster d v f.current_cluster b
      → f.cluster_offset / 512 < v.sectors_per_cluster
      → block_read d (sector_of v f) ≡ some (take 512 (drop (512 * (f.cluster_offset / 512)) b))
  unfolding cluster_to_sector
  at_sector cluster below =
      let size = mounted.sector_size in rw size (cluster.sectors (f.cluster_offset / 512) below)

  advance-Unread :
      (bs : List (List ℕ))
      → rest ≡ concat bs
      → Stored d v f.current_cluster (b ∷ bs)
      → f.cluster_offset + k ≤ v.bytes_per_cluster
      → Unread d v (advance d v k f) (drop (f.cluster_offset + k) (b ++ rest))
  unfolding advance concat
  advance-Unread bs is stored fits =
      let o = f.cluster_offset in
      let cluster = mounted.cluster_size in
      let few = mounted.few_sectors in
      let some_sector = mounted.some_sector in
      let full = stored.1.full in
      let no_wrap : (o + k) % 2 ^ 32 ≡ o + k = omega arith in
      rw no_wrap (elim (Bool-cases (leb v.bytes_per_cluster (o + k))) [
        | inl over ↦
            let past : length b ≤ o + k = ground (arith, over) in
            let none_left : o + k ≤ length b = omega arith in
            rw over (record {
              blocks = bs;
              stored = stored.2;
              inside = omega arith;
              ahead =
                  sym is
                  ∙ sym (
                      drop-append_le (o + k) b rest none_left
                      ∙ ap (λ x. x ++ rest) (drop_all (o + k) b past));
            })
        | inr within ↦ rw within (record {
          blocks = b ∷ bs;
          stored = stored;
          inside = ground (arith, within);
          ahead = ap (λ x. drop (o + k) (b ++ x)) (sym is);
        })
      ])

module _ (d : Drive) (v : Volume) (mounted : IsMounted v) (f : File) (bytes : List ℕ)
    (left : ℕ) where
  -- The sector that a turn reads, and what it copies from there.
  abbrev pub Turn : Type 0
  Turn =
      (f.current_cluster < eoc_min)
      × (sector : List ℕ) × (block_read d (sector_of v f) ≡ some sector)
      × (take (bytes_to_copy v f left) (drop (f.cluster_offset % v.bytes_per_sector) sector)
          ≡ take (bytes_to_copy v f left) bytes)
      × Unread d v (advance d v (bytes_to_copy v f left) f) (drop (bytes_to_copy v f left) bytes)

  pub turn : 0 < left → left ≤ length bytes → Unread d v f bytes → Turn
  turn some_left enough u = by_blocks u.blocks u.stored u.ahead
    where
      k : ℕ
      k = bytes_to_copy v f left

      by_blocks :
          (blocks : List (List ℕ))
          → Stored d v f.current_cluster blocks
          → drop f.cluster_offset (concat blocks) ≡ bytes
          → Turn
      by_blocks [] stored ahead =
          let empty : bytes ≡ [] = sym ahead ∙ (unfold concat in drop-nil f.cluster_offset) in
          absurd (omega (arith, ap length empty))
      by_blocks (b ∷ bs) stored ahead =
          let bounds = copied-bounds v mounted f left some_left u.inside in
          let o = f.cluster_offset in
          let size = mounted.sector_size in
          let rest = concat bs in
          let is : drop o (b ++ rest) ≡ bytes = unfold concat in ahead in
          let next = advance-Unread d v mounted f k b rest bs refl stored bounds.4 in
          (
            stored.0,
            take 512 (drop (512 * (o / 512)) b),
            at_sector d v mounted f k b rest stored.1 bounds.3,
            subst (λ x. take k (drop (o % x) (take 512 (drop (512 * (o / 512)) b))) ≡ take k bytes)
                (sym size)
                (copied-bytes d v mounted f k b rest stored.1.full bounds.2 bounds.4
                  ∙ ap (take k) is),
            subst (Unread d v (advance d v k f)) (sym (drop-drop k o (b ++ rest)) ∙ ap (drop k) is)
                next,
          )
