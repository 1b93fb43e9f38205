-- ===== src/FileSystem/WriteRound.antt =====
-- The blocks of a file while `write` of Assignment7/lab7/src/library/fs.cpp writes into its first five.
use cs232_operating_systems.Common.{
  ℕ, ◌+◌, ◌-◌, ◌/◌, ◌%◌, ◌≤◌, ◌<◌, ◌≡◌, ◌≢◌, refl, sym, ap, ◌∙◌, subst, arith, ◌&&◌, List, get_or,
  ltb, leb, if◌then◌else◌, eq→==, ne→not-==, eq-cases, lt-cases, ◌⊎◌, inl, inr,
}
use cs232_operating_systems.FileSystem.Block.{Block, pointers_per_inode}
use cs232_operating_systems.FileSystem.Emulator.{Disk, put_block}
use cs232_operating_systems.FileSystem.State.{FileSystem}
use cs232_operating_systems.FileSystem.Transfer.{Buffer, block_size}
use cs232_operating_systems.FileSystem.Table.{IsVolume-with, with_disk}
use cs232_operating_systems.FileSystem.Owning.{file_byte, IsForeign, Sound}

module _ {before : FileSystem} {direct₀ : List ℕ} {from : Buffer} {offset : ℕ} {fs : FileSystem}
    {direct : List ℕ} {written : ℕ}
    (sound : Sound before direct₀ from offset fs direct written) where
  -- A block of the file is written, from where the last round ended.
  module _ (k n : ℕ) (b : Block) (r : ℕ) (at : k ≡ (offset + written) / block_size)
      (lt : k < pointers_per_inode) (there : get_or direct k 0 ≢ 0)
      (fits : (offset + written) % block_size + n ≤ block_size)
      (new : (i : ℕ)
        → i < block_size
        → b i ≡ (
            if leb ((offset + written) % block_size) i
              && ltb i ((offset + written) % block_size + n)
            then from (written + (i - (offset + written) % block_size))
            else fs.disk.contents (get_or direct k 0) i)) where
    abbrev pub after : Disk
    after = put_block (record fs.disk { reads = r }) (get_or direct k 0) b

    put_inside : (q : ℕ) → q / block_size ≡ k → file_byte after direct q ≡ b (q % block_size)
    put_inside q e =
        rw
          (
            e,
            ne→not-== (get_or direct k 0) 0 there,
            eq→== (get_or direct k 0) (get_or direct k 0) refl,
          )
          refl

    put_outside :
        (q : ℕ)
        → q < 20480
        → q / block_size ≢ k
        → file_byte after direct q ≡ file_byte fs.disk direct q
    put_outside q h ne = elim (eq-cases (get_or direct (q / block_size) 0) 0) [
      | inl z ↦ rw (z) refl
      | inr nz ↦
          rw
            (ne→not-== (get_or direct (q / block_size) 0) (get_or direct k 0)
              (sound.owns.apart (q / block_size) k (omega arith) lt ne nz))
            refl
    ]

    old_inside :
        (q : ℕ)
        → q / block_size ≡ k
        → file_byte fs.disk direct q ≡ fs.disk.contents (get_or direct k 0) (q % block_size)
    old_inside q e = rw (e, ne→not-== (get_or direct k 0) 0 there) refl

    window :
        (q x y : ℕ)
        → (q < offset + written) ⊎ (offset + (written + n) ≤ q)
        → ◌≡◌ {A = ℕ}
            (if leb offset q && ltb q (offset + written) then x else y)
            (if leb offset q && ltb q (offset + (written + n)) then x else y)
    window q x y out = ground arith

    round_outside :
        (q x y : ℕ)
        → (q % block_size < (offset + written) % block_size)
          ⊎ ((offset + written) % block_size + n ≤ q % block_size)
        → ◌≡◌ {A = ℕ}
            (if leb ((offset + written) % block_size) (q % block_size)
                && ltb (q % block_size) ((offset + written) % block_size + n)
              then x
              else y)
            y
    round_outside q x y out = ground arith

    put_reached :
        (q : ℕ) → offset ≤ q → q < offset + (written + n) → get_or direct (q / block_size) 0 ≢ 0
    put_reached q lo hi = elim (lt-cases q (offset + written)) [
      | inl early ↦ sound.reached q lo early
      | inr now ↦ subst (λ j. get_or direct j 0 ≢ 0) (omega arith) there
    ]

    not_foreign : (j : ℕ) → IsForeign before direct₀ j → j ≢ get_or direct k 0
    not_foreign j (hi, e, apart) f = elim (sound.origin k lt) [
      | inl g ↦ apart k lt (sym g ∙ sym f)
      | inr g ↦ g (ap (λ x. get_or before.free_bitmap x 0) (sym f) ∙ e)
    ]

    put_bytes :
        (q : ℕ)
        → q < 20480
        → file_byte after direct q ≡ (
            if leb offset q && ltb q (offset + (written + n))
            then from (q - offset)
            else file_byte before.disk direct₀ q)
    put_bytes q h = elim (eq-cases (q / block_size) k) [
      | inr ne ↦
          put_outside q h ne
          ∙ sound.bytes q h
          ∙ window q (from (q - offset)) (file_byte before.disk direct₀ q) (omega arith)
      | inl e ↦
          put_inside q e
          ∙ new (q % block_size) (omega arith)
          ∙ (elim (lt-cases q (offset + written)) [
            | inl before_it ↦
                round_outside q
                  (from (written + (q % block_size - (offset + written) % block_size)))
                  (fs.disk.contents (get_or direct k 0) (q % block_size)) (omega arith)
                ∙ sym (old_inside q e)
                ∙ sound.bytes q h
                ∙ window q (from (q - offset)) (file_byte before.disk direct₀ q) (inl before_it)
            | inr from_it ↦ elim (lt-cases q (offset + (written + n))) [
              | inr behind ↦
                  round_outside q
                    (from (written + (q % block_size - (offset + written) % block_size)))
                    (fs.disk.contents (get_or direct k 0) (q % block_size)) (omega arith)
                  ∙ sym (old_inside q e)
                  ∙ sound.bytes q h
                  ∙ window q (from (q - offset)) (file_byte before.disk direct₀ q) (inr behind)
              | inl within ↦
                  let index : written + (q % block_size - (offset + written) % block_size)
                      ≡ q - offset =
                    omega arith in
                  rw (index) (ground arith)
            ]
          ])
    ]

    pub put-Sound : Sound before direct₀ from offset (with_disk fs after) direct (written + n)
    put-Sound =
        let own = sound.owns in
        let p = get_or direct k 0 in
        record {
          volume = IsVolume-with sound.volume after fs.free_bitmap refl refl;
          owns = record {
            five = own.five;
            reserved = own.reserved;
            behind = own.behind;
            inside = own.inside;
            in_use = own.in_use;
            apart = own.apart;
          };
          same_blocks = sound.same_blocks;
          same_tables = sound.same_tables;
          same_inodes = sound.same_inodes;
          tables = λ j le.
              rw (ne→not-== j p (omega (arith, own.behind k lt there, sound.same_tables)))
                (sound.tables j le);
          bytes = put_bytes;
          reached = put_reached;
          shrinks = sound.shrinks;
          origin = sound.origin;
          foreign = λ j is. rw (ne→not-== j p (not_foreign j is)) (sound.foreign j is);
        }
