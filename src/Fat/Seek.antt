-- ===== src/Fat/Seek.antt =====
-- `fat_seek` of src/fat32.c: the position that it reaches is the one that a read would have.
use cool_os.Prelude.{
  ℕ, zero, suc, ◌+◌, ◌-◌, ◌%◌, ◌^◌, ◌≤◌, ◌<◌, ◌≡◌, refl, sym, subst, ap, ◌∙◌, true, false, inl, inr,
  some, Option, List, [], ◌∷◌, ◌++◌, arith, ltb, leb, drop, length, min, length-append, Bool-cases,
  set,
}
use cool_os.Fat.{Drive, Volume, File, get_entry, eoc_min}
use cool_os.Fat.Read.{skip, seek, open_file}
use cool_os.Fat.Bytes.{drop-drop, drop-append_le, drop_all}
use cool_os.Fat.Contents.{IsMounted, concat, Stored, Unread}
use cool_os.Fat.Session.{
  Holds, retabled, Stored-retabled, Unread-retabled, open_file-IsOpen, IsOpen-retabled,
}

-- Where skipping whole clusters ends: `left` bytes into a cluster, or at the chain's end.
record Skips (d : Drive) (v : Volume) (f : File) (bs : List (List ℕ)) (offset : ℕ)
    (run : Option (ℕ × File)) : Type 0 where
  left : ℕ
  file : File
  returns : run ≡ some (left, file)
  blocks : List (List ℕ)
  stored : Stored d v file.current_cluster blocks
  inside : left < v.bytes_per_cluster
  ahead : drop left (concat blocks) ≡ drop offset (concat bs)
  position : file.position + left ≡ f.position + offset
  file_size : file.file_size ≡ f.file_size
  first_cluster : file.first_cluster ≡ f.first_cluster
  in_use : file.in_use ≡ f.in_use

module _ (d : Drive) (v : Volume) (mounted : IsMounted v) where
  Skips-nothing :
      (n offset : ℕ) (f : File) (bs : List (List ℕ))
      → offset < v.bytes_per_cluster
      → Stored d v f.current_cluster bs
      → Skips d v f bs offset (skip (suc n) d v offset f)
  unfolding skip
  Skips-nothing n offset f bs near stored =
      let stop : leb v.bytes_per_cluster offset ≡ false = ground arith in
      rw stop (record {
        left = offset;
        file = f;
        returns = refl;
        blocks = bs;
        stored = stored;
        inside = near;
        ahead = refl;
        position = refl;
        file_size = refl;
        first_cluster = refl;
        in_use = refl;
      })

  skip-Skips :
      (n offset : ℕ) (f : File) (bs : List (List ℕ))
      → length bs < n
      → offset ≤ length (concat bs)
      → f.position + offset < 2 ^ 32
      → Stored d v f.current_cluster bs
      → Skips d v f bs offset (skip n d v offset f)
  unfolding skip concat
  skip-Skips zero offset f bs fuel far small stored = elim fuel [ ]
  skip-Skips (suc n) offset f [] fuel far small stored =
      Skips-nothing n offset f [] (omega (arith, mounted.cluster_size, mounted.some_sector)) stored
  skip-Skips (suc n) offset f (b ∷ bs) fuel far small stored =
      elim (Bool-cases (leb v.bytes_per_cluster offset)) [
        | inr near ↦ Skips-nothing n offset f (b ∷ bs) (ground (arith, near)) stored
        | inl over ↦
            let size = v.bytes_per_cluster in
            let full = stored.1.full in
            let past : size ≤ offset = ground (arith, over) in
            let chained : ltb f.current_cluster eoc_min ≡ true = ground (arith, stored.0) in
            let f' = record f {
              current_cluster = get_entry d v f.current_cluster;
              position = (f.position + size) % 2 ^ 32;
            } in
            let e =
              skip-Skips n (offset - size) f' bs (omega arith)
                (omega (arith, length-append b (concat bs))) (omega arith) stored.2 in
            let whole : size + (offset - size) ≡ offset = omega arith in
            let behind : drop size (b ++ concat bs) ≡ concat bs =
              drop-append_le size b (concat bs) (omega arith)
              ∙ ap (λ x. x ++ concat bs) (drop_all size b (omega arith)) in
            rw (over, chained)
              (record {
                left = e.left;
                file = e.file;
                returns = e.returns;
                blocks = e.blocks;
                stored = e.stored;
                inside = e.inside;
                ahead =
                    e.ahead
                    ∙ ap (drop (offset - size)) (sym behind)
                    ∙ drop-drop (offset - size) size (b ++ concat bs)
                    ∙ ap (λ k. drop k (b ++ concat bs)) whole;
                position = omega (arith, e.position);
                file_size = e.file_size;
                first_cluster = e.first_cluster;
                in_use = e.in_use;
              })
      ]

seek-skip :
    (n : ℕ) (d : Drive) (v : Volume) (fd offset left : ℕ) (f f' : File)
    → open_file v fd ≡ some f
    → skip n d v
        (min offset f.file_size)
        (record f { position = 0; current_cluster = f.first_cluster; cluster_offset = 0 })
      ≡ some (left, f')
    → seek n d v fd offset
      ≡ some (
        true,
        retabled d v (
            set v.open_files fd
              (record f' { cluster_offset = left; position = (f'.position + left) % 2 ^ 32 })),
      )
unfolding seek
seek-skip n d v fd offset left f f' entry skipped = rw (seek, entry, skipped) refl

-- Seeking in an open file succeeds and moves to the offset, or to the end of the contents when the
-- offset lies behind it: reads go on from there. The fuel has to exceed the number of clusters.
pub seek-Holds :
    (n : ℕ) (d : Drive) (v : Volume) (fd offset p : ℕ) (contents : List ℕ)
    → IsMounted v
    → (h : Holds d v fd contents p) → length h.blocks < n
    → (v' : Volume) × (seek n d v fd offset ≡ some (true, v'))
      × Holds d v' fd contents (min offset (length contents))
seek-Holds n d v fd offset p contents mounted h fuel =
    let f = h.file in
    let goal = min offset f.file_size in
    let start = record f { position = 0; current_cluster = f.first_cluster; cluster_offset = 0 } in
    let o = open_file-IsOpen v fd f h.entry in
    let e =
      skip-Skips d v mounted n goal start h.blocks fuel
        (omega (arith, h.size, ap length h.held, length-append contents h.slack))
        (omega (arith, h.size, h.small)) h.stored in
    let there = record (e.file) {
      cluster_offset = e.left;
      position = (e.file.position + e.left) % 2 ^ 32;
    } in
    let fs = set v.open_files fd there in
    let reached : goal ≡ min offset (length contents) = ap (min offset) h.size in
    let u : Unread d v there (drop goal (contents ++ h.slack)) = record {
      blocks = e.blocks;
      stored = e.stored;
      inside = e.inside;
      ahead = e.ahead ∙ ap (drop goal) h.held;
    } in
    (
      retabled d v fs,
      seek-skip n d v fd offset e.left f e.file h.entry e.returns,
      record {
        file = there;
        entry = IsOpen-retabled d v fd f there o e.in_use;
        position = omega (arith, e.position, h.size, h.small);
        size = e.file_size ∙ h.size;
        small = h.small;
        within = omega arith;
        slack = h.slack;
        blocks = h.blocks;
        stored =
            subst (λ c. Stored d (retabled d v fs) c h.blocks) (sym e.first_cluster)
              (Stored-retabled d v fs f.first_cluster h.blocks h.stored);
        held = h.held;
        unread =
            subst (λ k. Unread d (retabled d v fs) there (drop k (contents ++ h.slack))) reached
              (Unread-retabled d v fs there (drop goal (contents ++ h.slack)) u);
      },
    )
