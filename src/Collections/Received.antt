-- ===== src/Collections/Received.antt =====
-- collections.go: the loop of `collect`, against the batches that decode.
use hurricache_go_client.Prelude.{
  ℕ, suc, ◌+◌, ◌≡◌, refl, sym, ◌∙◌, Option, none, some, List, [], ◌∷◌, ◌++◌, append_assoc,
  append-nil, length, length-append, arith,
}
use hurricache_go_client.Errors.{Except, ok, err, Error, Ret, partial}
use hurricache_go_client.Types.{ContainerData, no_data}
use hurricache_go_client.Wire.{BatchValueResponse}
use hurricache_go_client.Config.{Config}
use hurricache_go_client.Codec.{Compressors}
use hurricache_go_client.Collections.Streams.{decode_batch, append_data, count_data, receive}

-- One of the lists of all data, one after another.
abbrev pub joined : {A : Type 0} → (ContainerData → List A) → List ContainerData → List A
joined f [] = []
joined f (d ∷ ds) = f d ++ joined f ds

partial_ap : {m n i j : ℕ} → m ≡ n → i ≡ j → (e : Option Error) → partial m i e ≡ partial n j e
partial_ap h k e = rw (h, k) refl

module _ (z : Compressors) (c : Config) where
  -- What batches come to that are followed by an end of the stream: the data of those before the first that
  -- does not decode, and that one's error or the stream's.
  pub data DecodedTo
      : List BatchValueResponse → Option Error → List ContainerData → Option Error → Type 0 where
    ended : (end : Option Error) → DecodedTo [] end [] end
    broken :
        (b : BatchValueResponse) (bs : List BatchValueResponse) (end : Option Error) (e : Error)
        → decode_batch z c b ≡ err e
        → DecodedTo (b ∷ bs) end [] (some e)
    read :
        (b : BatchValueResponse) (bs : List BatchValueResponse) (end e : Option Error)
        (d : ContainerData) (ds : List ContainerData)
        → decode_batch z c b ≡ ok d
        → DecodedTo bs end ds e
        → DecodedTo (b ∷ bs) end (d ∷ ds) e

  -- A stream's result behind what was read of it before: `a`, from `chunks` batches.
  pub record ReceivedAfter (a : ContainerData) (chunks : ℕ) (bs : List BatchValueResponse)
      (end : Option Error) (r : Ret ContainerData) : Type 0 where
    pub batches : List ContainerData
    pub stop : Option Error
    pub decoded : DecodedTo bs end batches stop
    pub values : r.0.values ≡ a.values ++ joined (λ d. d.values) batches
    pub ordered_values :
        r.0.ordered_values ≡ a.ordered_values ++ joined (λ d. d.ordered_values) batches
    pub entries : r.0.entries ≡ a.entries ++ joined (λ d. d.entries) batches
    pub ordered_entries :
        r.0.ordered_entries ≡ a.ordered_entries ++ joined (λ d. d.ordered_entries) batches
    pub error :
        r.1
        ≡ partial
            (chunks + length batches)
            (length r.0.values
              + length r.0.ordered_values
              + length r.0.entries
              + length r.0.ordered_entries)
            stop

  data Decoded (b : BatchValueResponse) : Type 0 where
    bad : (e : Error) → decode_batch z c b ≡ err e → Decoded b
    good : (d : ContainerData) → decode_batch z c b ≡ ok d → Decoded b

  Decoded-cases :
      (b : BatchValueResponse) (r : Except ContainerData) → decode_batch z c b ≡ r → Decoded b
  Decoded-cases b (ok d) h = good d h
  Decoded-cases b (err e) h = bad e h

  count-append : (a d : ContainerData) → count_data a + count_data d ≡ count_data (append_data a d)
  count-append a d = omega (
    arith,
    length-append a.values d.values,
    length-append a.ordered_values d.ordered_values,
    length-append a.entries d.entries,
    length-append a.ordered_entries d.ordered_entries,
  )

  -- The result where nothing more is read.
  stopped :
      (a : ContainerData) (chunks items : ℕ) (bs : List BatchValueResponse) (end e : Option Error)
      → items ≡ count_data a
      → DecodedTo bs end [] e
      → ReceivedAfter a chunks bs end (a, partial chunks items e)
  stopped a chunks items bs end e h k = record {
    batches = [];
    stop = e;
    decoded = k;
    values = sym (append-nil a.values);
    ordered_values = sym (append-nil a.ordered_values);
    entries = sym (append-nil a.entries);
    ordered_entries = sym (append-nil a.ordered_entries);
    error = partial_ap (omega arith) h e;
  }

  -- The result behind one batch more.
  one_more :
      (a : ContainerData) (chunks : ℕ) (b : BatchValueResponse) (d : ContainerData)
      (bs : List BatchValueResponse) (end : Option Error) (r : Ret ContainerData)
      → decode_batch z c b ≡ ok d
      → ReceivedAfter (append_data a d) (suc chunks) bs end r
      → ReceivedAfter a chunks (b ∷ bs) end r
  one_more a chunks b d bs end r h k = record {
    batches = d ∷ k.batches;
    stop = k.stop;
    decoded = read b bs end k.stop d k.batches h k.decoded;
    values = k.values ∙ append_assoc a.values d.values _;
    ordered_values = k.ordered_values ∙ append_assoc a.ordered_values d.ordered_values _;
    entries = k.entries ∙ append_assoc a.entries d.entries _;
    ordered_entries = k.ordered_entries ∙ append_assoc a.ordered_entries d.ordered_entries _;
    error = k.error ∙ partial_ap (omega arith) refl k.stop;
  }

  receive_after :
      (a : ContainerData) (chunks items : ℕ) (bs : List BatchValueResponse) (end : Option Error)
      → items ≡ count_data a
      → ReceivedAfter a chunks bs end (receive z c a chunks items bs end)
  unfolding receive partial
  receive_after a chunks items [] none h = stopped a chunks items [] none none h (ended none)
  receive_after a chunks items [] (some e) h =
      stopped a chunks items [] (some e) (some e) h (ended (some e))
  receive_after a chunks items (b ∷ bs) end h = elim (Decoded-cases b (decode_batch z c b) refl) [
    | bad e k ↦
        rw (k, receive) (stopped a chunks items (b ∷ bs) end (some e) h (broken b bs end e k))
    | good d k ↦
        rw (k, receive)
          (one_more a chunks b d bs end _ k (
            receive_after (append_data a d) (suc chunks) (items + count_data d) bs end
              (omega (arith, h, count-append a d))))
  ]

  -- A stream is read to the first batch that does not decode, or to its end. What is returned holds, list by
  -- list and in the order of the stream, the data of all batches before that, and the error is that batch's or
  -- the stream's, as a partial one after as many chunks as batches were read and as many items as are
  -- returned.
  pub receive-ReceivedAfter :
      (bs : List BatchValueResponse) (end : Option Error)
      → ReceivedAfter no_data 0 bs end (receive z c no_data 0 0 bs end)
  receive-ReceivedAfter bs end = receive_after no_data 0 0 bs end refl
