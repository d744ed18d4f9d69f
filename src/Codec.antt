-- ===== src/Codec.antt =====
-- Little-endian numbers in a block, and the 64 bytes of `mofs_inode_t` on a 64-bit little-endian target.
use mofs.Base.{
  ℕ, zero, suc, ◌+◌, ◌*◌, ◌/◌, ◌%◌, ◌≤◌, ◌<◌, ◌≡◌, refl, sym, ◌∙◌, ap, List, [], ◌∷◌, ◌++◌, arith,
  length, take, drop, length-take, u32_mod, u64_mod,
}
use mofs.Core.{Inode}
use mofs.Store.{splice}

abbrev pub put16 : ℕ → List ℕ
put16 v = (v % 256) ∷ (v / 256 % 256) ∷ []

abbrev pub put32 : ℕ → List ℕ
put32 v = (v % 256) ∷ (v / 256 % 256) ∷ (v / 65536 % 256) ∷ (v / 16777216 % 256) ∷ []

abbrev pub put64 : ℕ → List ℕ
put64 v = put32 (v % u32_mod) ++ put32 (v / u32_mod)

abbrev pub get8 : List ℕ → ℕ
get8 [] = 0
get8 (b ∷ bs) = b

abbrev pub get16 : List ℕ → ℕ
get16 bs = get8 bs + 256 * get8 (drop 1 bs)

abbrev pub get32 : List ℕ → ℕ
get32 bs = get16 bs + 65536 * get16 (drop 2 bs)

abbrev pub get64 : List ℕ → ℕ
get64 bs = get32 bs + 4294967296 * get32 (drop 4 bs)

-- the bytes of an inode
abbrev pub inode_bytes : Inode → List ℕ
inode_bytes i =
    put32 i.i_size
    ++ (put16 i.i_links
        ++ (put16 i.i_mode
            ++ (put32 i.i_uid
                ++ (put32 i.i_gid
                    ++ (put32 i.i_data_head
                        ++ (put32 i.i_nr_blocks
                            ++ (put64 i.i_atime
                                ++ (put64 i.i_mtime ++ (put64 i.i_ctime ++ i.reserved)))))))))

-- `mofs_memcpy(inode, inode_ptr, sizeof(mofs_inode_t))`
abbrev pub inode_of_bytes : List ℕ → Inode
inode_of_bytes bs = record {
  i_size = get32 bs;
  i_links = get16 (drop 4 bs);
  i_mode = get16 (drop 6 bs);
  i_uid = get32 (drop 8 bs);
  i_gid = get32 (drop 12 bs);
  i_data_head = get32 (drop 16 bs);
  i_nr_blocks = get32 (drop 20 bs);
  i_atime = get64 (drop 24 bs);
  i_mtime = get64 (drop 32 bs);
  i_ctime = get64 (drop 40 bs);
  reserved = take 16 (drop 48 bs);
}

abbrev pub inode_at : List ℕ → ℕ → Inode
inode_at block off = inode_of_bytes (drop off block)

-- Each field has its width.
pub record InWidth (i : Inode) : Type 0 where
  pub size : i.i_size < u32_mod
  pub links : i.i_links < 65536
  pub mode : i.i_mode < 65536
  pub uid : i.i_uid < u32_mod
  pub gid : i.i_gid < u32_mod
  pub data_head : i.i_data_head < u32_mod
  pub nr_blocks : i.i_nr_blocks < u32_mod
  pub atime : i.i_atime < u64_mod
  pub mtime : i.i_mtime < u64_mod
  pub ctime : i.i_ctime < u64_mod
  pub padding : length i.reserved ≡ 16

get16-put16 : (v : ℕ) (rest : List ℕ) → v < 65536 → get16 (put16 v ++ rest) ≡ v
get16-put16 v rest h = omega arith

pub get32-put32 : (v : ℕ) (rest : List ℕ) → v < u32_mod → get32 (put32 v ++ rest) ≡ v
get32-put32 v rest h = omega arith

get64-put64 : (v : ℕ) (rest : List ℕ) → v < u64_mod → get64 (put64 v ++ rest) ≡ v
get64-put64 v rest h = omega arith

pub take_whole : {A : Type 0} (n : ℕ) (xs ys : List A) → length xs ≡ n → take n (xs ++ ys) ≡ xs
take_whole n xs ys h = go n xs h
  where
    go : (n : ℕ) (zs : List _) → length zs ≡ n → take n (zs ++ ys) ≡ zs
    go zero [] h = refl
    go zero (x ∷ zs) h = absurd (omega arith)
    go (suc n) [] h = absurd (omega arith)
    go (suc n) (x ∷ zs) h = ap (λ t. x ∷ t) (go n zs (omega arith))

-- An inode whose fields have their widths is read back from its bytes as it was.
pub inode_of_bytes-inode_bytes :
    (i : Inode) (rest : List ℕ) → InWidth i → inode_of_bytes (inode_bytes i ++ rest) ≡ i
inode_of_bytes-inode_bytes i rest w = λ k. record {
  i_size = get32-put32 i.i_size [] w.size k;
  i_links = get16-put16 i.i_links [] w.links k;
  i_mode = get16-put16 i.i_mode [] w.mode k;
  i_uid = get32-put32 i.i_uid [] w.uid k;
  i_gid = get32-put32 i.i_gid [] w.gid k;
  i_data_head = get32-put32 i.i_data_head [] w.data_head k;
  i_nr_blocks = get32-put32 i.i_nr_blocks [] w.nr_blocks k;
  i_atime = get64-put64 i.i_atime [] w.atime k;
  i_mtime = get64-put64 i.i_mtime [] w.mtime k;
  i_ctime = get64-put64 i.i_ctime [] w.ctime k;
  reserved = take_whole 16 i.reserved rest w.padding k;
}

drop_whole : {A : Type 0} (xs ys : List A) → drop (length xs) (xs ++ ys) ≡ ys
drop_whole [] ys = refl
drop_whole (x ∷ xs) ys = drop_whole xs ys

-- What was copied into a block is found at its offset.
pub drop-splice :
    (block : List ℕ) (off : ℕ) (patch : List ℕ)
    → off ≤ length block
    → drop off (splice block off patch) ≡ patch ++ drop (off + length patch) block
drop-splice block off patch h =
    ap (λ n. drop n (splice block off patch)) (sym (omega (arith, length-take off block)))
    ∙ drop_whole (take off block) _

pub inode_at-splice :
    (block : List ℕ) (off : ℕ) (i : Inode)
    → off ≤ length block
    → InWidth i
    → inode_at (splice block off (inode_bytes i)) off ≡ i
inode_at-splice block off i h w =
    ap inode_of_bytes (drop-splice block off (inode_bytes i) h) ∙ inode_of_bytes-inode_bytes i _ w

pub length-inode_bytes : (i : Inode) → InWidth i → length (inode_bytes i) ≡ 64
length-inode_bytes i w = omega (arith, w.padding)
