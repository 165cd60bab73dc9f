-- ===== src/Store/Hold/Lifetime.antt =====
-- internal/store/hold.go: the life of an entry, over any sequence of operations.
use iskra.Base.{
  ℕ, ◌≤◌, ◌<◌, ◌≡◌, refl, true, false, ◌||◌, ltb, leb, some, none, List, [], ◌∷◌, arith, Bool-cases,
  Option-cases, inl, inr, ◌∙◌, subst₂, leb→le, ◌==◌,
}
use iskra.Base.Bytes.{Bytes, ◌=?◌, =?→eq, codes}
use iskra.Base.Dict.{
  Dict, lookup, insert, remove, lookup-insert, lookup-insert_self, lookup-remove, Unique,
  insert-Unique, remove-Unique,
}
use iskra.Base.Hex.{hex}
use iskra.Message.{Message}
use iskra.Message.Wire.{serialize}
use iskra.Store.Hold.{
  Hold, HoldMeta, Disk, file_name, default_fwd_limit, save_meta, fresh_meta, store_with_ttl,
  to_delete, delete_all, cleanup_locked, cleanup, sync_loop, read_dir, get_for_sync, forwarded,
  mark_forwarded, delete,
}

-- An entry is exhausted exactly when it was forwarded 15 times or more, and then it is in the morgue;
-- otherwise it is not. It has a hop left, and its file is there.
pub record IsEntry (files : Dict Bytes) (k : Bytes) (m : HoldMeta) : Type 0 where
  pub live : m.exhausted ≡ false → (m.forward_count < default_fwd_limit) × (m.morgue_at ≡ 0)
  pub dead : m.exhausted ≡ true → (default_fwd_limit ≤ m.forward_count) × (0 < m.morgue_at)
  pub hop : 1 ≤ m.hop_ttl
  pub file : (content : Bytes) × (lookup k files ≡ some content)

pub record IsSound (h : Hold) : Type 0 where
  pub unique : Unique h.meta
  pub entry : (k : Bytes) (m : HoldMeta) → lookup k h.meta ≡ some m → IsEntry h.files k m

-- One operation of the hold at a positive time; reads are not listed, as they change nothing.
pub data Step (disk : Disk) : Hold → Hold → Type 0 where
  stores :
      {h : Hold} (now : ℕ) (m : Message) (ttl : ℕ) → Step disk h (store_with_ttl disk now h m ttl).0
  cleans : {h : Hold} (now : ℕ) → Step disk h (cleanup disk now h)
  syncs : {h : Hold} (now : ℕ) → 0 < now → Step disk h (get_for_sync disk now h).0
  marks : {h : Hold} (now : ℕ) (id : Bytes) → 0 < now → Step disk h (mark_forwarded disk now id h)
  deletes : {h : Hold} (id : Bytes) → Step disk h (delete disk h id)

pub data Reach (disk : Disk) (h : Hold) : Hold → Type 0 where
  here : Reach disk h h
  next : {t u : Hold} → Reach disk h t → Step disk t u → Reach disk h u

save_meta-IsSound : (disk : Disk) (h : Hold) → IsSound h → IsSound (save_meta disk h)
unfolding save_meta
save_meta-IsSound disk h s = elim (Bool-cases (disk.writable (codes "_meta.json"))) [
  | inl e ↦ rw e (record { unique = s.unique; entry = s.entry })
  | inr e ↦ rw e s
]

IsEntry-same :
    (files files' : Dict Bytes) (k : Bytes) (m : HoldMeta)
    → lookup k files' ≡ lookup k files
    → IsEntry files k m
    → IsEntry files' k m
IsEntry-same files files' k m same e = record {
  live = e.live;
  dead = e.dead;
  hop = e.hop;
  file = (e.file.0, same ∙ e.file.1);
}

unsome : (m n : HoldMeta) → some m ≡ some n → m ≡ n
unsome m n e = cc

-- A new or changed entry, whose file is written or was there.
insert-IsSound :
    (h : Hold) (files : Dict Bytes) (k : Bytes) (m : HoldMeta)
    → IsSound h
    → IsEntry files k m
    → ((j : Bytes) → (k =? j) ≡ false → lookup j files ≡ lookup j h.files)
    → IsSound (record h { files = files; meta = insert k m h.meta })
insert-IsSound h files k m s e same = record {
  unique = insert-Unique k m h.meta s.unique;
  entry = λ j n. elim (Bool-cases (k =? j)) [
    | inl q ↦ rw (lookup-insert, q) (λ eq. subst₂ (IsEntry files) (=?→eq k j q) (unsome m n eq) e)
    | inr q ↦
        rw (lookup-insert, q) (λ eq. IsEntry-same h.files files j n (same j q) (s.entry j n eq))
  ];
}

absent_key : (n : HoldMeta) → none ≡ some n → ⊥
absent_key n e = cc

remove-IsSound :
    (h : Hold) (k : Bytes)
    → IsSound h
    → IsSound (record h { files = remove k h.files; meta = remove k h.meta })
remove-IsSound h k s = record {
  unique = remove-Unique k h.meta s.unique;
  entry = λ j n. elim (Bool-cases (k =? j)) [
    | inl q ↦ rw (lookup-remove, q) (λ eq. absurd (absent_key n eq))
    | inr q ↦
        rw (lookup-remove, q)
          (λ eq.
            IsEntry-same h.files (remove k h.files) j n (rw (lookup-remove, q)) (s.entry j n eq))
  ];
}

delete_all-IsSound : (ids : List Bytes) (h : Hold) → IsSound h → IsSound (delete_all ids h)
unfolding delete_all
delete_all-IsSound [] h s = s
delete_all-IsSound (k ∷ ids) h s = delete_all-IsSound ids _ (remove-IsSound h k s)

cleanup_locked-IsSound : (now : ℕ) (h : Hold) → IsSound h → IsSound (cleanup_locked now h)
unfolding cleanup_locked
cleanup_locked-IsSound now h = delete_all-IsSound (to_delete now h.meta) h

-- An entry of the map may be replaced by one that its file still serves.
update-IsSound :
    (h : Hold) (k : Bytes) (m m' : HoldMeta)
    → 0 < m.hop_ttl
    → lookup k h.meta ≡ some m
    → IsSound h
    → (m'.hop_ttl ≡ m.hop_ttl)
    → (m'.exhausted ≡ false → (m'.forward_count < default_fwd_limit) × (m'.morgue_at ≡ 0))
    → (m'.exhausted ≡ true → (default_fwd_limit ≤ m'.forward_count) × (0 < m'.morgue_at))
    → IsSound (record h { meta = insert k m' h.meta })
update-IsSound h k m m' pos found s hop live dead =
    insert-IsSound h h.files k m' s
      (record { live = live; dead = dead; hop = omega arith; file = (s.entry k m found).file })
      (λ j q. refl)

zero_test : (n : ℕ) → (n == 0) ≡ false → 1 ≤ n
zero_test n h = ground arith

store_with_ttl-IsSound :
    (disk : Disk) (now : ℕ) (h : Hold) (m : Message) (ttl : ℕ)
    → IsSound h
    → IsSound (store_with_ttl disk now h m ttl).0
unfolding store_with_ttl
store_with_ttl-IsSound disk now h m ttl s = elim (Option-cases (lookup (hex m.id) h.meta)) [
  | inr (old, e) ↦ rw (e, store_with_ttl) s
  | inl e ↦
      rw (e, store_with_ttl)
        (elim (Bool-cases (ttl == 0)) [
          | inl z ↦ rw z s
          | inr pos ↦ rw pos (elim (Bool-cases (disk.writable (file_name (hex m.id)))) [
            | inl w ↦ rw w (save_meta-IsSound disk _ (written (omega (arith, zero_test ttl pos))))
            | inr w ↦ rw w s
          ])
        ])
]
  where
    written :
        1 ≤ ttl
        → IsSound (record h {
          files = insert (hex m.id) (serialize m) h.files;
          meta = insert (hex m.id) (fresh_meta now m ttl) h.meta;
        })
    written hop =
        insert-IsSound h _ (hex m.id) (fresh_meta now m ttl) s
          (record {
            live = λ e. unfold fresh_meta in (omega arith, refl);
            dead = λ e. unfold fresh_meta in cc;
            hop = unfold fresh_meta in hop;
            file = (serialize m, lookup-insert_self (hex m.id) (serialize m) h.files);
          })
          (λ j q. rw (lookup-insert, q))

mark_forwarded-IsSound :
    (disk : Disk) (now : ℕ) (id : Bytes) (h : Hold)
    → 0 < now
    → IsSound h
    → IsSound (mark_forwarded disk now id h)
unfolding mark_forwarded
mark_forwarded-IsSound disk now id h pos s = elim (Option-cases (lookup (hex id) h.meta)) [
  | inl e ↦ rw (e, mark_forwarded) s
  | inr (m, e) ↦
      rw (e, mark_forwarded)
        (save_meta-IsSound disk _ (
          update-IsSound h (hex id) m (forwarded now m) (s.entry (hex id) m e).hop e s
            (unfold forwarded in ground arith) (still_live m (s.entry (hex id) m e))
            (now_dead m (s.entry (hex id) m e))))
]
  where
    still_live :
        (m : HoldMeta)
        → IsEntry h.files (hex id) m
        → (forwarded now m).exhausted ≡ false
        → ((forwarded now m).forward_count < default_fwd_limit) × ((forwarded now m).morgue_at ≡ 0)
    still_live m e = unfold forwarded in ground (arith, e.live)

    now_dead :
        (m : HoldMeta)
        → IsEntry h.files (hex id) m
        → (forwarded now m).exhausted ≡ true
        → (default_fwd_limit ≤ (forwarded now m).forward_count) × (0 < (forwarded now m).morgue_at)
    now_dead m e = unfold forwarded in ground (arith, e.dead)

abbrev moved : ℕ → HoldMeta → HoldMeta
moved now m = record m { exhausted = true; morgue_at = now }

sync_loop-IsSound :
    (disk : Disk) (now : ℕ) (entries : Dict Bytes) (h : Hold)
    → 0 < now
    → IsSound h
    → IsSound (record h { meta = (sync_loop disk now entries h.meta).0 })
unfolding sync_loop
sync_loop-IsSound disk now [] h pos s = record { unique = s.unique; entry = s.entry }
sync_loop-IsSound disk now ((k, content) ∷ entries) h pos s =
    elim (Option-cases (lookup k h.meta)) [
      | inl e ↦ rw (e, sync_loop) (sync_loop-IsSound disk now entries h pos s)
      | inr (m, e) ↦
          rw (e, sync_loop)
            (elim (Bool-cases (m.exhausted || ltb 0 m.morgue_at)) [
              | inl dead ↦ rw dead (sync_loop-IsSound disk now entries h pos s)
              | inr live ↦ rw live (elim (Bool-cases (leb default_fwd_limit m.forward_count)) [
                | inl spent ↦ rw spent (
                    sync_loop-IsSound disk now entries
                      (record h { meta = insert k (moved now m) h.meta }) pos
                      (update-IsSound h k m (moved now m) (s.entry k m e).hop e s refl
                        (λ x. absurd (true_false x)) (λ x. (leb→le _ _ spent, pos))))
                | inr more ↦ rw more (sync_loop-IsSound disk now entries h pos s)
              ])
            ])
    ]
  where
    true_false : true ≡ false → ⊥
    true_false x = cc

get_for_sync-IsSound :
    (disk : Disk) (now : ℕ) (h : Hold)
    → 0 < now
    → IsSound (cleanup_locked now h)
    → IsSound (get_for_sync disk now h).0
unfolding get_for_sync
get_for_sync-IsSound disk now h pos s = elim (Bool-cases disk.listable) [
  | inl e ↦ simp e (
      save_meta-IsSound disk _ (
        sync_loop-IsSound disk now (read_dir (cleanup_locked now h).files) (cleanup_locked now h)
          pos s))
  | inr e ↦ simp e s
]

-- The operations keep the hold sound.
Step-IsSound : {disk : Disk} {h u : Hold} → Step disk h u → IsSound h → IsSound u
Step-IsSound {disk} (stores {h} now m ttl) s = store_with_ttl-IsSound disk now h m ttl s
Step-IsSound {disk} (cleans {h} now) s =
    unfold cleanup in save_meta-IsSound disk _ (cleanup_locked-IsSound now h s)
Step-IsSound {disk} (syncs {h} now pos) s =
    get_for_sync-IsSound disk now h pos (cleanup_locked-IsSound now h s)
Step-IsSound {disk} (marks {h} now id pos) s = mark_forwarded-IsSound disk now id h pos s
Step-IsSound {disk} (deletes {h} id) s =
    unfold delete in save_meta-IsSound disk _ (remove-IsSound h (hex id) s)

-- Whatever operations have run on a sound hold, with a clock past 0 where they write it: the map has
-- one entry a message; an entry is marked exhausted, and is in the morgue, exactly when it was
-- forwarded 15 times or more; it has at least one hop left, and its message file is there.
pub Reach-IsSound : {disk : Disk} {h u : Hold} → IsSound h → Reach disk h u → IsSound u
Reach-IsSound s here = s
Reach-IsSound s (next r st) = Step-IsSound st (Reach-IsSound s r)
