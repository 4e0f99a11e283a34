-- ===== src/Fs/Inodes/Sync.antt =====
-- The inodes in memory (fs/inode.c): testfs_sync_inode, and opening an inode again.
use operating_system_ece.Common.{
  ℕ, ◌+◌, ◌*◌, ◌/◌, ◌%◌, ◌<◌, ◌≡◌, ◌≢◌, refl, true, false, ltb, Option, none, some, pos, is_zero,
  decrement, arith, update, if◌then◌else◌, inl, inr, ◌∙◌, ap, sym, subst,
}
use operating_system_ece.Fs.Device.{Device, read_blocks, write_blocks}
use operating_system_ece.Fs.Device.Writes.{
  read_blocks-write_blocks_same, read_blocks-write_blocks_other,
}
use operating_system_ece.Fs.Super.{SuperBlock}
use operating_system_ece.Fs.Inode.{Dinode, Inode}
use operating_system_ece.Fs.File.{◌>>=◌}
use operating_system_ece.Fs.Inodes.{
  Inodes, nr_inode_blocks, inodes_per_block, dinode_at, store_dinode, change_inode, chain_of,
  testfs_read_inode_block, testfs_write_inode_block, testfs_get_inode, sync_found,
  testfs_sync_inode, testfs_put_inode,
}
use operating_system_ece.Fs.Inodes.Chains.{find-i_nr, set_at, set_at-here, same_nr}
use operating_system_ece.Fs.Inodes.Encoding.{
  IsDinode, SameDinode, dinode_at-store_dinode, dinode_at-other, dinode_at-same, SameDinode-trans,
}
use operating_system_ece.Fs.Inodes.Table.{
  disk_node, referenced, released, IsTable, lookup, Opens, Closes, HasReference,
  IsChain-HasReference, changed-IsTable, changed-lookup, testfs_get_inode-Opens,
  testfs_put_inode-Closes,
}

module _ (hash : ℕ → ℕ) where
  -- What `testfs_sync_inode` is to do with an inode that is dirty
  abbrev pub Syncs : Inodes → ℕ → Inode → Option Inodes → Type 0
  Syncs t nr x none = ⊥
  Syncs t nr x (some t') =
      IsTable hash t'
      × ((m : ℕ)
          → lookup hash t' m ≡ set_at (lookup hash t) nr (some (record x { dirty = false })) m)
      × SameDinode (disk_node t'.super nr) x.node
      × ((m : ℕ) → m ≢ nr → SameDinode (disk_node t'.super m) (disk_node t.super m))

  module _ (t : Inodes) (s' : SuperBlock) (nr : ℕ) (d : Dinode) (ints : IsDinode d)
      (e : s' ≡ record t.super {
        dev =
            write_blocks t.super.dev
              (store_dinode
                (read_blocks t.super.dev (t.super.sb.inode_blocks_start + nr / inodes_per_block))
                (nr % inodes_per_block)
                d)
              (t.super.sb.inode_blocks_start + nr / inodes_per_block)
              1;
      }) where
    abbrev block_before : ℕ → ℕ
    block_before = read_blocks t.super.dev (t.super.sb.inode_blocks_start + nr / inodes_per_block)

    abbrev block_after : ℕ → ℕ
    block_after = store_dinode block_before (nr % inodes_per_block) d

    abbrev dev_after : Device
    dev_after =
        write_blocks t.super.dev block_after (t.super.sb.inode_blocks_start + nr / inodes_per_block)
          1

    node_after :
        (m : ℕ)
        → disk_node s' m
          ≡ dinode_at
              (read_blocks dev_after (t.super.sb.inode_blocks_start + m / inodes_per_block))
              (m % inodes_per_block)
    node_after m =
        ap
          (λ s.
            dinode_at (read_blocks s.dev (s.sb.inode_blocks_start + m / inodes_per_block))
              (m % inodes_per_block))
          e

    synced_node : SameDinode (disk_node s' nr) d
    synced_node =
        subst (λ x. SameDinode x d) (sym (node_after nr))
          (SameDinode-trans _ (dinode_at block_after (nr % inodes_per_block)) d
            (dinode_at-same _ block_after (nr % inodes_per_block)
              (λ i l.
                read_blocks-write_blocks_same t.super.dev block_after
                  (t.super.sb.inode_blocks_start + nr / inodes_per_block) i l)
              (omega arith))
            (dinode_at-store_dinode block_before (nr % inodes_per_block) d ints))

    other_node : (m : ℕ) → m ≢ nr → SameDinode (disk_node s' m) (disk_node t.super m)
    other_node m ne =
        subst (λ x. SameDinode x (disk_node t.super m)) (sym (node_after m))
          (elim (same_nr (m / inodes_per_block) (nr / inodes_per_block)) [
            | inl q ↦
                subst
                  (λ k.
                    SameDinode
                      (dinode_at (read_blocks dev_after (t.super.sb.inode_blocks_start + k))
                        (m % inodes_per_block))
                      (dinode_at (read_blocks t.super.dev (t.super.sb.inode_blocks_start + k))
                        (m % inodes_per_block)))
                  (sym q)
                  (SameDinode-trans _ (dinode_at block_after (m % inodes_per_block)) _
                    (dinode_at-same _ block_after (m % inodes_per_block)
                      (λ i l.
                        read_blocks-write_blocks_same t.super.dev block_after
                          (t.super.sb.inode_blocks_start + nr / inodes_per_block) i l)
                      (omega arith))
                    (dinode_at-other block_before (nr % inodes_per_block) (m % inodes_per_block) d
                      (λ r. ne (omega arith))))
            | inr q ↦
                dinode_at-same _ _ (m % inodes_per_block)
                  (λ i l.
                    read_blocks-write_blocks_other t.super.dev block_after
                      (t.super.sb.inode_blocks_start + m / inodes_per_block)
                      (t.super.sb.inode_blocks_start + nr / inodes_per_block) i
                      (λ r. q (omega arith)) l)
                  (omega arith)
          ])

  sync_dirty-Syncs :
      (t : Inodes) (nr : ℕ) (x : Inode)
      → IsTable hash t
      → nr < nr_inode_blocks * inodes_per_block
      → lookup hash t nr ≡ some x
      → IsDinode x.node
      → Syncs t nr x (do
        block ← testfs_read_inode_block t.super nr
        s ← testfs_write_inode_block t.super nr (store_dinode block (nr % inodes_per_block) x.node)
        some (record t {
          super = s;
          chains =
              update t.chains
                (hash nr)
                (change_inode (chain_of hash t nr) (record x { dirty = false }));
        }))
  unfolding testfs_read_inode_block testfs_write_inode_block
  sync_dirty-Syncs t nr x h l e ints =
      let in_blocks : ltb (nr / inodes_per_block) nr_inode_blocks ≡ true = ground arith in
      let clean : Inode = record x { dirty = false } in
      let number : clean.i_nr ≡ nr = find-i_nr (chain_of hash t nr) nr x e in
      let n =
        subst (HasReference hash) e
          (IsChain-HasReference hash (hash nr) (chain_of hash t nr) nr (h (hash nr))) in
      rw in_blocks (
        changed-IsTable hash t nr x clean h e number n,
        changed-lookup hash t nr x clean h e number n,
        synced_node t _ nr x.node ints refl,
        other_node t _ nr x.node ints refl,
      )

  sync_some-Syncs :
      (t : Inodes) (nr : ℕ) (x : Inode)
      → IsTable hash t
      → nr < nr_inode_blocks * inodes_per_block
      → lookup hash t nr ≡ some x
      → x.dirty ≡ true
      → IsDinode x.node
      → Syncs t nr x (sync_found hash t nr (some x))
  unfolding sync_found
  sync_some-Syncs t nr x h l e dirty ints =
      subst
        (λ b. Syncs t nr x (
          if b
          then (do
            block ← testfs_read_inode_block t.super nr
            s ←
                testfs_write_inode_block t.super nr
                  (store_dinode block (nr % inodes_per_block) x.node)
            some (record t {
              super = s;
              chains =
                  update t.chains (hash nr)
                    (change_inode (chain_of hash t nr) (record x { dirty = false }));
            }))
          else some t))
        (sym dirty) (sync_dirty-Syncs t nr x h l e ints)

  -- `testfs_sync_inode` of a dirty inode writes its members to its place in the inode blocks, where they
  -- are read back as they are in memory; every other inode on the device is as it was, and in memory the
  -- inode is only marked as clean.
  pub testfs_sync_inode-Syncs :
      (t : Inodes) (nr : ℕ) (x : Inode)
      → IsTable hash t
      → nr < nr_inode_blocks * inodes_per_block
      → lookup hash t nr ≡ some x
      → x.dirty ≡ true
      → IsDinode x.node
      → Syncs t nr x (testfs_sync_inode hash t nr)
  unfolding testfs_sync_inode
  testfs_sync_inode-Syncs t nr x h l e dirty ints =
      subst (λ o. Syncs t nr x (sync_found hash t nr o)) (sym e)
        (sync_some-Syncs t nr x h l e dirty ints)

  -- What is to come back when the inode is opened again
  abbrev pub Reloads : Inode → Option (Inode × Inodes) → Type 0
  Reloads x none = ⊥
  Reloads x (some (y, t)) =
      SameDinode y.node x.node × (y.i_count ≡ pos 1) × (y.dirty ≡ false) × IsTable hash t

  get-Reloads :
      (t : Inodes) (nr : ℕ) (x : Inode) (o : Option (Inode × Inodes))
      → lookup hash t nr ≡ none
      → SameDinode (disk_node t.super nr) x.node
      → Opens hash t nr o
      → Reloads x o
  get-Reloads t nr x none gone same h = h
  get-Reloads t nr x (some (y, t')) gone same (e, table, super, at) =
      let new : y ≡ referenced none (disk_node t.super nr) nr =
        e ∙ ap (λ o. referenced o (disk_node t.super nr) nr) gone in
      (
        subst (λ d. SameDinode d x.node) (sym (ap (λ z. z.node) new)) same,
        ap (λ z. z.i_count) new,
        ap (λ z. z.dirty) new,
        table,
      )

  last_reference : (x : Inode) → x.i_count ≡ pos 1 → released x ≡ none
  unfolding decrement
  last_reference x e =
      ap (λ n. if is_zero (decrement n) then none else some (record x { i_count = decrement n })) e

  put-Reloads :
      (t : Inodes) (nr : ℕ) (x clean : Inode) (o : Option Inodes)
      → nr < nr_inode_blocks * inodes_per_block
      → clean.i_count ≡ pos 1
      → SameDinode (disk_node t.super nr) x.node
      → Closes hash t nr clean o
      → Reloads x (o >>= (λ t'. testfs_get_inode hash t' nr))
  put-Reloads t nr x clean none l one same h = h
  put-Reloads t nr x clean (some t') l one same (table, super, at) =
      get-Reloads t' nr x (testfs_get_inode hash t' nr)
        (at nr ∙ set_at-here (lookup hash t) nr nr (released clean) refl ∙ last_reference clean one)
        (subst (λ s. SameDinode (disk_node s nr) x.node) (sym super) same)
        (testfs_get_inode-Opens hash t' nr table l)

  sync-Reloads :
      (t : Inodes) (nr : ℕ) (x : Inode) (o : Option Inodes)
      → nr < nr_inode_blocks * inodes_per_block
      → x.i_count ≡ pos 1
      → Syncs t nr x o
      → Reloads x
          (o >>= (λ t'. testfs_put_inode hash t' nr >>= (λ t''. testfs_get_inode hash t'' nr)))
  sync-Reloads t nr x none l one h = h
  sync-Reloads t nr x (some t') l one (table, at, same, others) =
      put-Reloads t' nr x (record x { dirty = false }) (testfs_put_inode hash t' nr) l one same
        (testfs_put_inode-Closes hash t' nr (record x { dirty = false }) table
          (at nr ∙ set_at-here (lookup hash t) nr nr (some (record x { dirty = false })) refl) refl)

  -- A dirty inode with one reference that is written to the device, put back and opened again has the
  -- members that it had.
  pub inode-Reloads :
      (t : Inodes) (nr : ℕ) (x : Inode)
      → IsTable hash t
      → nr < nr_inode_blocks * inodes_per_block
      → lookup hash t nr ≡ some x
      → x.dirty ≡ true
      → x.i_count ≡ pos 1
      → IsDinode x.node
      → Reloads x (
          testfs_sync_inode hash t nr
          >>= (λ t'. testfs_put_inode hash t' nr >>= (λ t''. testfs_get_inode hash t'' nr)))
  inode-Reloads t nr x h l e dirty one ints =
      sync-Reloads t nr x (testfs_sync_inode hash t nr) l one
        (testfs_sync_inode-Syncs t nr x h l e dirty ints)
