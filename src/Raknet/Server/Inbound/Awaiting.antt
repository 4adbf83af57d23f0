-- ===== src/Raknet/Server/Inbound/Awaiting.antt =====
-- What a connection of crates/raknet/src/server.rs has to hold for the pieces of a message that are
-- still to come over several frame sets.
use rust_mine.Base.{
  ℕ, suc, ◌+◌, ◌-◌, ◌%◌, ◌^◌, ◌≤◌, ◌<◌, ltb, ◌==◌, eq_true, eq_false, if◌then◌else◌, Bool, true,
  ◌≡◌, refl, sym, ap, ◌∙◌, List, [], ◌∷◌, length, get_or, retain, Option, none, some, arith,
}
use mathlib.Core.List.{flatten}
use mathlib.Core.Path.{subst}
use rust_mine.Base.Assoc.{lookup, lookup-insert, same_refl, nat_eq}
use rust_mine.Raknet.Packet.{Frame, Reliability}
use rust_mine.Raknet.Connection.{
  Connection, SplitPacket, feed_split, split_entry, insert_piece, expire_split_packets,
  split_packet_timeout,
}
use rust_mine.Raknet.Connection.Reassembly.InOrder.{
  insert_piece-IsPrefix, IsPrefix, new_split-IsPrefix,
}
use rust_mine.Raknet.Server.Inbound.{option_list}
use rust_mine.Raknet.Server.Inbound.Delivery.{feed_split-none, feed_split-some}
use rust_mine.Raknet.Server.Inbound.Streams.{feed_one, IsSoon, Splits}
use rust_mine.Raknet.Server.Outbound.{piece_frames}

insert_piece-created_at :
    (sp : SplitPacket) (i : ℕ) (p : List ℕ) → (insert_piece sp i p).0.created_at ≡ sp.created_at
unfolding insert_piece
insert_piece-created_at sp i p = ground arith

module _ (test : SplitPacket → Bool) (k : ℕ) where
  lookup-retain-none : (m : Splits) → lookup k m ≡ none → lookup k (retain (λ e. test e.1) m) ≡ none
  lookup-retain-none [] h = refl
  lookup-retain-none ((j, v) ∷ m) h = ground (arith, lookup-retain-none m)

  lookup-retain-some :
      (m : Splits) (v : SplitPacket)
      → lookup k m ≡ some v
      → test v ≡ true
      → lookup k (retain (λ e. test e.1) m) ≡ some v
  lookup-retain-some [] v h t = absurd (cc)
  lookup-retain-some ((j, w) ∷ m) v h t = ground (arith, lookup-retain-some m v)

module _ (pieces : List (List ℕ)) (start : ℕ) where
  -- The entry that the first `i` pieces have left.
  abbrev pub Entry : ℕ → Option SplitPacket → Type 0
  Entry i none = i ≡ 0
  Entry i (some sp) = IsPrefix pieces i sp × (start ≤ sp.created_at)

  split_entry-IsPrefix :
      (i now : ℕ) (o : Option SplitPacket)
      → start ≤ now
      → Entry i o
      → IsPrefix pieces i (split_entry o (length pieces) now)
        × (start ≤ (split_entry o (length pieces) now).created_at)
  split_entry-IsPrefix i now none late h = rw h (new_split-IsPrefix pieces now, late)
  split_entry-IsPrefix i now (some sp) late h =
      rw (eq_true sp.split_count (length pieces) h.0.partial.counted) h

  Entry-expire :
      (i id now : ℕ) (o : Option SplitPacket) (c : Connection)
      → lookup id c.split_packets ≡ o
      → IsSoon start now
      → Entry i o
      → Entry i (lookup id (expire_split_packets c now).split_packets)
  unfolding expire_split_packets
  Entry-expire i id now none c e soon h =
      rw
        (lookup-retain-none (λ sp. ltb (now - sp.created_at) split_packet_timeout) id
          c.split_packets e)
        h
  Entry-expire i id now (some sp) c e soon h =
      rw
        (lookup-retain-some (λ t. ltb (now - t.created_at) split_packet_timeout) id c.split_packets
          sp e (is_recent h.1))
        h
    where
      is_recent : start ≤ sp.created_at → ltb (now - sp.created_at) split_packet_timeout ≡ true
      is_recent late = ground (arith, late, soon)

module _ (pieces : List (List ℕ)) (start id : ℕ) (reliability : Reliability)
    (ch rel_idx ord_idx : ℕ) (small : length pieces < 2 ^ 32) where
  abbrev pub frames_from : ℕ → List (List ℕ) → List Frame
  frames_from i ps = piece_frames (length pieces) id reliability ch rel_idx ord_idx i ps

  -- These frames carry the last pieces of the message, and the first ones have come.
  pub record AwaitsPieces (fs : List Frame) (splits : Splits) : Type 0 where
    pub next : ℕ
    pub last : List (List ℕ)
    pub carried : fs ≡ frames_from next last
    pub rest : (j : ℕ) → get_or pieces (next + j) [] ≡ get_or last j []
    pub long : next + length last ≡ length pieces
    pub entry : 0 < length last → Entry pieces start next (lookup id splits)

  -- What the next frame has to do, when there is one.
  abbrev Steps : List Frame → Connection → ℕ → Type 0
  Steps [] c now = Unit
  Steps (f ∷ fs) c now =
      AwaitsPieces fs (feed_one c f now).0.split_packets
      × ((feed_one c f now).1 ≡ (elim fs [ [] ↦ flatten pieces ∷ [] | _ ↦ [] ]))

  module _ (i : ℕ) (c : Connection) (now : ℕ) (late : start ≤ now) (inside : i < length pieces)
      (entry : Entry pieces start i (lookup id c.split_packets)) where
    held : SplitPacket
    held = split_entry (lookup id c.split_packets) (length pieces) now

    placed :
        IsPrefix pieces (i + 1) (insert_piece held i (get_or pieces i [])).0
        × ((insert_piece held i (get_or pieces i [])).1
            ≡ (if suc i == length pieces then some (flatten pieces) else none))
    unfolding held
    placed =
        insert_piece-IsPrefix pieces held i
          (split_entry-IsPrefix pieces start i now (lookup id c.split_packets) late entry).0 inside
          small

    abbrev fed : Connection × Option (List ℕ)
    fed = feed_split c id (i % 2 ^ 32) (length pieces) (get_or pieces i []) now

    fed-last : suc i ≡ length pieces → fed.1 ≡ some (flatten pieces)
    unfolding held
    fed-last end =
        let done =
          placed.1
          ∙ ap (λ b. if b then some (flatten pieces) else none)
              (eq_true (suc i) (length pieces) end) in
        ap (λ k. (feed_split c id k (length pieces) (get_or pieces i []) now).1) {y = i}
          (omega arith)
        ∙ ap (λ (r : Connection × Option (List ℕ)). r.1)
            (feed_split-some c id i (length pieces) (get_or pieces i []) (flatten pieces) now done)

    fed-wait :
        suc i < length pieces
        → (fed.1 ≡ none) × Entry pieces start (i + 1) (lookup id fed.0.split_packets)
    unfolding held
    fed-wait more =
        let wait =
          placed.1
          ∙ ap (λ b. if b then some (flatten pieces) else none)
              (eq_false (suc i) (length pieces) (λ e. absurd (omega (arith, e, more)))) in
        let at : i % 2 ^ 32 ≡ i = omega arith in
        let sp = (insert_piece held i (get_or pieces i [])).0 in
        rw (at, feed_split-none c id i (length pieces) (get_or pieces i []) now wait)
          (
            refl,
            rw (lookup-insert id id sp c.split_packets, same_refl id)
                (
                  placed.0,
                  omega (
                    arith,
                    insert_piece-created_at held i (get_or pieces i []),
                    (split_entry-IsPrefix pieces start i now (lookup id c.split_packets) late
                        entry).1,
                  ),
                ),
          )

  Steps-frames :
      (i : ℕ) (ps : List (List ℕ)) (c : Connection) (now : ℕ)
      → start ≤ now
      → ((j : ℕ) → get_or pieces (i + j) [] ≡ get_or ps j [])
      → i + length ps ≡ length pieces
      → (0 < length ps → Entry pieces start i (lookup id c.split_packets))
      → Steps (frames_from i ps) c now
  unfolding piece_frames
  Steps-frames i [] c now late rest long entry = tt
  Steps-frames i (p ∷ []) c now late rest long entry =
      let here : p ≡ get_or pieces i [] =
        sym (rest 0) ∙ ap (λ (k : ℕ). get_or pieces k []) (omega arith) in
      let inside : i < length pieces = omega arith in
      rw here (
        record {
          next = i + 1;
          last = [];
          carried = refl;
          rest = λ j.
              ap (λ (k : ℕ). get_or pieces k []) {x = i + 1 + j} {y = i + suc j} (omega arith)
              ∙ rest (suc j);
          long = omega arith;
          entry = λ some_. absurd (omega arith);
        },
        ap option_list (fed-last i c now late inside (entry (omega arith)) (omega arith)),
      )
  Steps-frames i (p ∷ q ∷ ps) c now late rest long entry =
      let here : p ≡ get_or pieces i [] =
        sym (rest 0) ∙ ap (λ (k : ℕ). get_or pieces k []) (omega arith) in
      let inside : i < length pieces = omega arith in
      let (wait, entry') = fed-wait i c now late inside (entry (omega arith)) (omega arith) in
      rw here (
        record {
          next = i + 1;
          last = q ∷ ps;
          carried = refl;
          rest = λ j.
              ap (λ (k : ℕ). get_or pieces k []) {x = i + 1 + j} {y = i + suc j} (omega arith)
              ∙ rest (suc j);
          long = omega arith;
          entry = λ some_. entry';
        },
        ap option_list wait,
      )

  pub AwaitsPieces-step :
      (f : Frame) (fs : List Frame) (c : Connection) (now : ℕ)
      → start ≤ now
      → AwaitsPieces (f ∷ fs) c.split_packets
      → Steps (f ∷ fs) c now
  AwaitsPieces-step f fs c now late h =
      subst (λ l. Steps l c now) (sym h.carried)
        (Steps-frames h.next h.last c now late h.rest h.long h.entry)

  pub AwaitsPieces-expire :
      (fs : List Frame) (c : Connection) (now : ℕ)
      → IsSoon start now
      → AwaitsPieces fs c.split_packets
      → AwaitsPieces fs (expire_split_packets c now).split_packets
  AwaitsPieces-expire fs c now soon h = record {
    next = h.next;
    last = h.last;
    carried = h.carried;
    rest = h.rest;
    long = h.long;
    entry = λ some_.
        Entry-expire pieces start h.next id now (lookup id c.split_packets) c refl soon
          (h.entry some_);
  }
