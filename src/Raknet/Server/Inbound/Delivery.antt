-- ===== src/Raknet/Server/Inbound/Delivery.antt =====
-- What `split_payload` makes of a payload, `feed_split` puts together again,
-- crates/raknet/src/server.rs and connection.rs.
use rust_mine.Base.{
  ℕ, suc, ◌+◌, ◌-◌, ◌/◌, ◌%◌, ◌^◌, ◌<◌, max, eq_true, eq_false, if◌then◌else◌, ◌≡◌, refl, sym, ap,
  ◌∙◌, List, [], ◌∷◌, length, get_or, chunks, none, some, arith,
}
use mathlib.Core.List.{flatten}
use rust_mine.Base.Assoc.{lookup, insert, remove, lookup-insert, same_refl, nat_eq}
use rust_mine.Raknet.Packet.{Reliability}
use rust_mine.Raknet.Connection.{Connection, SplitPacket, feed_split, split_entry, insert_piece}
use rust_mine.Raknet.Connection.Reassembly.InOrder.{
  insert_piece-IsPrefix, IsPrefix, new_split-IsPrefix,
}
use rust_mine.Raknet.Server.Inbound.{feed_frames}
use rust_mine.Raknet.Server.Outbound.{piece_frames, split_payload, chunk_size}
use rust_mine.Raknet.Server.Outbound.Pieces.{flatten-chunks, length-chunks, length-chunks_bounds}

-- `feed_split` by what `insert_piece` hands back.
pub feed_split-none :
    (c : Connection) (id index count : ℕ) (body : List ℕ) (now : ℕ)
    → (insert_piece (split_entry (lookup id c.split_packets) count now) index body).1 ≡ none
    → feed_split c id index count body now ≡ (
      record c {
        split_packets =
            insert id
              (insert_piece (split_entry (lookup id c.split_packets) count now) index body).0
              c.split_packets;
      },
      none,
    )
unfolding feed_split
feed_split-none c id index count body now e = ground (arith, e)

pub feed_split-some :
    (c : Connection) (id index count : ℕ) (body whole : List ℕ) (now : ℕ)
    → (insert_piece (split_entry (lookup id c.split_packets) count now) index body).1 ≡ some whole
    → feed_split c id index count body now
      ≡ (record c { split_packets = remove id c.split_packets }, some whole)
unfolding feed_split
feed_split-some c id index count body whole now e = ground (arith, e)

-- The entry that is stored is the one that the next piece finds.
entry-after :
    (pieces : List (List ℕ)) (c : Connection) (id i now : ℕ) (sp : SplitPacket)
    → IsPrefix pieces i sp
    → split_entry (lookup id (insert id sp c.split_packets)) (length pieces) now ≡ sp
entry-after pieces c id i now sp prefix =
    rw
      (
        lookup-insert id id sp c.split_packets,
        same_refl id,
        eq_true sp.split_count (length pieces) prefix.partial.counted,
      )
      refl

module _ (id now : ℕ) (reliability : Reliability) (ch rel_idx ord_idx : ℕ) where
  -- The rest of the pieces of a message, in order, make it whole with the last of them.
  feed_frames-rest :
      (pieces : List (List ℕ)) (p : List ℕ) (ps : List (List ℕ)) (i : ℕ) (c : Connection)
      → IsPrefix pieces i (split_entry (lookup id c.split_packets) (length pieces) now)
      → ((j : ℕ) → get_or pieces (i + j) [] ≡ get_or (p ∷ ps) j [])
      → i + suc (length ps) ≡ length pieces
      → length pieces < 2 ^ 32
      → (feed_frames c
          (piece_frames (length pieces) id reliability ch rel_idx ord_idx i (p ∷ ps))
          now).1
        ≡ flatten pieces ∷ []
  unfolding feed_frames piece_frames
  feed_frames-rest pieces p [] i c prefix rest long small =
      let here : p ≡ get_or pieces i [] =
        sym (rest 0) ∙ ap (λ (k : ℕ). get_or pieces k []) (omega arith) in
      let at : i % 2 ^ 32 ≡ i = omega arith in
      let (kept, whole) =
        insert_piece-IsPrefix pieces (split_entry (lookup id c.split_packets) (length pieces) now) i
          prefix (omega arith) small in
      let done =
        whole
        ∙ ap (λ b. if b then some (flatten pieces) else none)
            (eq_true (suc i) (length pieces) (omega arith)) in
      rw
        (
          at,
          here,
          feed_split-some c id i (length pieces) (get_or pieces i []) (flatten pieces) now done,
        )
        refl
  feed_frames-rest pieces p (q ∷ ps) i c prefix rest long small =
      let here : p ≡ get_or pieces i [] =
        sym (rest 0) ∙ ap (λ (k : ℕ). get_or pieces k []) (omega arith) in
      let at : i % 2 ^ 32 ≡ i = omega arith in
      let (kept, whole) =
        insert_piece-IsPrefix pieces (split_entry (lookup id c.split_packets) (length pieces) now) i
          prefix (omega arith) small in
      let wait =
        whole
        ∙ ap (λ b. if b then some (flatten pieces) else none)
            (eq_false (suc i) (length pieces) (λ e. absurd (omega (arith, e, long)))) in
      let sp =
        (insert_piece (split_entry (lookup id c.split_packets) (length pieces) now) i
          (get_or pieces i [])).0 in
      let c' = record c { split_packets = insert id sp c.split_packets } in
      rw (at, here, feed_split-none c id i (length pieces) (get_or pieces i []) now wait)
        (feed_frames-rest pieces q ps (i + 1) c'
          (rw (entry-after pieces c id (i + 1) now sp kept) kept)
          (λ j.
            ap (λ (k : ℕ). get_or pieces k []) {x = i + 1 + j} {y = i + suc j} (omega arith)
            ∙ rest (suc j))
          (omega arith) small)

feed_frames-pieces :
    (c : Connection) (pieces : List (List ℕ)) (id now : ℕ) (reliability : Reliability)
    (ch rel_idx ord_idx : ℕ)
    → lookup id c.split_packets ≡ none
    → 0 < length pieces
    → length pieces < 2 ^ 32
    → (feed_frames c
        (piece_frames (length pieces) id reliability ch rel_idx ord_idx 0 pieces)
        now).1
      ≡ flatten pieces ∷ []
feed_frames-pieces c [] id now reliability ch rel_idx ord_idx fresh some_ small =
    absurd (omega arith)
feed_frames-pieces c (p ∷ ps) id now reliability ch rel_idx ord_idx fresh some_ small =
    feed_frames-rest id now reliability ch rel_idx ord_idx (p ∷ ps) p ps 0 c
      (rw fresh (new_split-IsPrefix (p ∷ ps) now))
      (λ j. ap (λ (k : ℕ). get_or (p ∷ ps) k []) {x = 0 + j} {y = j} (omega arith)) (omega arith)
      small

-- The frames that split_payload makes of a payload that is not empty and shorter than 2^32, fed in
-- order to a connection with no part of the same split id, give the payload, once.
pub feed_frames-split_payload :
    (c : Connection) (body : List ℕ) (mtu id now : ℕ) (reliability : Reliability)
    (ch rel_idx ord_idx : ℕ)
    → lookup id c.split_packets ≡ none
    → 0 < length body
    → length body < 2 ^ 32
    → (feed_frames c (split_payload body mtu id reliability ch rel_idx ord_idx) now).1 ≡ body ∷ []
unfolding split_payload
feed_frames-split_payload c body mtu id now reliability ch rel_idx ord_idx fresh some_ small =
    let k = chunk_size mtu in
    let pos : 0 < k = omega arith in
    let pieces = chunks k body in
    let bounds = length-chunks_bounds k body pos some_ in
    let count : max ((length body + k - 1) / k) 1 % 2 ^ 32 ≡ length pieces =
      omega (arith, length-chunks k body pos, bounds) in
    rw count (
      feed_frames-pieces c pieces id now reliability ch rel_idx ord_idx fresh
        (omega (arith, bounds)) (omega (arith, bounds))
      ∙ ap (λ xs. xs ∷ []) (flatten-chunks k body pos))
