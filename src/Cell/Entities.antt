-- ===== src/Cell/Entities.antt =====
-- `addEntity` and `removeEntity`: the table of entities and the count of clients, which decides
-- whether `broadcast` keeps a packet.
use shinzui.Base.{
  ℕ, ◌+◌, ◌%◌, ◌<◌, ◌≡◌, ◌≢◌, refl, sym, ◌∙◌, List, [], ◌∷◌, ◌++◌, none, some, true, arith, inl,
  inr, ◌⊎◌, lookup, emplace, erase, lookup-erase, dec_lt, ℕ_discrete, if◌then◌else◌,
}
use mathlib.Core.Logic.{if_pos, if_neg}
use shinzui.Offset.{Offset}
use shinzui.World.{Cell, Entity, EntityPtr, PacketPtr}
use shinzui.Cell.{add_entity, remove_entity, is_client, broadcast, open_queue, construct}

-- No id has two entries.
abbrev pub UniqueIds : List (ℕ × EntityPtr) → Type 0
UniqueIds [] = Unit
UniqueIds ((id, e) ∷ es) = (lookup ℕ_discrete id es ≡ none) × UniqueIds es

module _ (entity : EntityPtr → Entity) where
  -- How many of the entities are clients.
  abbrev pub clients : List (ℕ × EntityPtr) → ℕ
  clients [] = 0
  clients ((id, e) ∷ es) = (if is_client (entity e).client then 1 else 0) + clients es

  clients-emplace :
      (id : ℕ) (e : EntityPtr) (es : List (ℕ × EntityPtr))
      → lookup ℕ_discrete id es ≡ none
      → clients (emplace ℕ_discrete id e es)
        ≡ clients es + (if is_client (entity e).client then 1 else 0)
  unfolding lookup emplace
  clients-emplace id e [] h = ground arith
  clients-emplace id e ((j, f) ∷ es) h = ground (arith, clients-emplace id e es)

  erase_absent :
      (id : ℕ) (es : List (ℕ × EntityPtr))
      → lookup ℕ_discrete id es ≡ none
      → erase ℕ_discrete id es ≡ es
  unfolding lookup erase
  erase_absent id [] h = refl
  erase_absent id ((j, f) ∷ es) h = ground (arith, erase_absent id es)

  clients-erase :
      (id : ℕ) (e : EntityPtr) (es : List (ℕ × EntityPtr))
      → UniqueIds es
      → lookup ℕ_discrete id es ≡ some e
      → clients es
        ≡ clients (erase ℕ_discrete id es) + (if is_client (entity e).client then 1 else 0)
  unfolding lookup erase
  clients-erase id e [] u h = cc
  clients-erase id e ((j, f) ∷ es) u h = elim (ℕ_discrete j id) [
    | yes same ↦
        let gone : lookup ℕ_discrete id es ≡ none = rw same at u.0 in
        let found : some f ≡ some e = sym (if_pos (ℕ_discrete j id) same _ _) ∙ h in
        rw (if_pos (ℕ_discrete j id) same) (ground (arith, erase_absent id es gone, found))
    | no other ↦
        let found : lookup ℕ_discrete id es ≡ some e =
          sym (if_neg (ℕ_discrete j id) other _ _) ∙ h in
        rw (if_neg (ℕ_discrete j id) other) (omega (arith, clients-erase id e es u.1 found))
  ]

  lookup-emplace_other :
      (id j : ℕ) (e : EntityPtr) (es : List (ℕ × EntityPtr))
      → id ≢ j
      → lookup ℕ_discrete j (emplace ℕ_discrete id e es) ≡ lookup ℕ_discrete j es
  unfolding lookup emplace
  lookup-emplace_other id j e [] h = if_neg (ℕ_discrete id j) h _ _
  lookup-emplace_other id j e ((i, f) ∷ es) h = ground (arith, lookup-emplace_other id j e es h)

  emplace-UniqueIds :
      (id : ℕ) (e : EntityPtr) (es : List (ℕ × EntityPtr))
      → UniqueIds es
      → UniqueIds (emplace ℕ_discrete id e es)
  unfolding emplace
  emplace-UniqueIds id e [] u = (unfold lookup in refl, tt)
  emplace-UniqueIds id e ((j, f) ∷ es) u = elim (ℕ_discrete j id) [
    | yes same ↦ rw (if_pos (ℕ_discrete j id) same) u
    | no other ↦
        rw (if_neg (ℕ_discrete j id) other)
          (lookup-emplace_other id j e es (λ h. other (sym h)) ∙ u.0, emplace-UniqueIds id e es u.1)
  ]

  erase-UniqueIds :
      (id : ℕ) (es : List (ℕ × EntityPtr)) → UniqueIds es → UniqueIds (erase ℕ_discrete id es)
  unfolding erase
  erase-UniqueIds id [] u = tt
  erase-UniqueIds id ((j, f) ∷ es) u = elim (ℕ_discrete j id) [
    | yes same ↦ rw (if_pos (ℕ_discrete j id) same) (erase-UniqueIds id es u.1)
    | no other ↦ rw (if_neg (ℕ_discrete j id) other) (
      lookup-erase ℕ_discrete id j es ∙ if_neg (ℕ_discrete id j) (λ h. other (sym h)) _ _ ∙ u.0,
      erase-UniqueIds id es u.1,
    )
  ]

  -- The cell counts its clients from `start` on.
  pub record Counts (start : ℕ) (c : Cell) : Type 0 where
    pub unique : UniqueIds c.entities
    pub counted : c.clients_count ≡ (start + clients c.entities) % 65536

  -- Where a cell counts its clients modulo 2 ^ 16 from some start and its ids are unique, this is
  -- so after an entity whose id is new was added.
  pub add_entity-Counts :
      (start : ℕ) (c : Cell) (e : EntityPtr)
      → Counts start c
      → lookup ℕ_discrete (entity e).id c.entities ≡ none
      → Counts start (add_entity (entity e) e c)
  unfolding add_entity
  add_entity-Counts start c e k h = record {
    unique = emplace-UniqueIds (entity e).id e c.entities k.unique;
    counted = ground (arith, k.counted, clients-emplace (entity e).id e c.entities h);
  }

  -- Where a cell counts its clients modulo 2 ^ 16 from some start and its ids are unique, this is
  -- so after an entity that is in the cell was removed.
  pub remove_entity-Counts :
      (start : ℕ) (c : Cell) (e : EntityPtr)
      → Counts start c
      → lookup ℕ_discrete (entity e).id c.entities ≡ some e
      → Counts start (remove_entity (entity e) c)
  unfolding remove_entity
  remove_entity-Counts start c e k h = record {
    unique = erase-UniqueIds (entity e).id c.entities k.unique;
    counted = ground (arith, k.counted, clients-erase (entity e).id e c.entities k.unique h);
  }

  -- A cell that counts from 0 and has fewer than 2 ^ 16 clients keeps a packet to broadcast exactly if
  -- it has a client; otherwise it stays as it is.
  pub broadcast-Counts :
      (c : Cell) (packet : PacketPtr)
      → Counts 0 c
      → clients c.entities < 65536
      → ((0 < clients c.entities)
          × (open_queue (broadcast packet c) ≡ open_queue c ++ (packet ∷ [])))
        ⊎ ((clients c.entities ≡ 0) × (broadcast packet c ≡ c))
  unfolding broadcast
  broadcast-Counts c packet k h = elim (dec_lt 0 (clients c.entities)) [
    | yes some_client ↦ inl (some_client, ground (arith, k.counted))
    | no no_client ↦ inr (omega arith, ground (arith, k.counted))
  ]

-- A new cell counts from what the memory held, since the constructor does not set `_clientsCount`. If
-- that was not 0, a cell without entities keeps the packets to broadcast; if it was 2 ^ 16 - 1, a cell
-- whose one entity is a client drops them.
pub construct-garbage :
    (o : Offset) (garbage : ℕ) (v : Entity) (e : EntityPtr) (packet : PacketPtr)
    → 0 < garbage
    → is_client v.client ≡ true
    → let c = add_entity v e (construct o 65535) in
      (open_queue (broadcast packet (construct o garbage)) ≡ packet ∷ [])
      × (c.entities ≡ (v.id, e) ∷ [])
      × (broadcast packet c ≡ c)
unfolding construct broadcast add_entity emplace
construct-garbage o garbage v e packet h client = (ground arith, refl, ground arith)
