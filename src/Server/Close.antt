-- ===== src/Server/Close.antt =====
-- `Client::close`.
use shinzui.Base.{
  ◌≡◌, ◌≢◌, refl, ap, [], ◌∷◌, ◌++◌, Option, none, some, arith, Option-cases, inl, inr, ◌⊎◌,
}
use shinzui.World.{CellPtr, ClientPtr, remove_entity, write_at}
use shinzui.Map.{run_remove}
use shinzui.Map
use shinzui.Server.{
  Server, Status, initialized, in_world, closed, close, close_client, shut, leave_map, handle_close,
  push_operation,
}

-- Where the entity of the client is.
abbrev pub cell_of : ClientPtr → Server → Option CellPtr
cell_of c s = (s.world.entity (s.client c).entity).cell

abbrev pub Shut : ClientPtr → Server → Server → Type 0
Shut c s s' =
    ((s'.client c).status ≡ closed)
    × (s'.operations ≡ push_operation (close c) s.operations)
    × (((cell_of c s ≡ none) × (s'.world.map_pushed ≡ s.world.map_pushed))
        ⊎ ((p : CellPtr) × (cell_of c s ≡ some p)
            × (s'.world.map_pushed
                ≡ s.world.map_pushed
                  ++ (record {
                    type = remove_entity;
                    offset = (s.world.heap p).offset;
                    entity = some (s.client c).entity;
                    param = none;
                  }
                      ∷ []))))

pub shut-Shut : (c : ClientPtr) (s : Server) → Shut c s (shut c s)
unfolding shut leave_map handle_close write_at Map.remove_from
shut-Shut c s = elim (Option-cases (cell_of c s)) [
  | inl nowhere ↦ (ground arith, ground arith, inl (nowhere, ground (arith, nowhere)))
  | inr (p, there) ↦ (ground arith, ground arith, inr (p, there, ground (arith, there)))
]

-- The two branches of `close`.
pub close_cases :
    (c : ClientPtr) (s : Server)
    → (((s.client c).status ≡ closed) × (close_client c s ≡ s))
      ⊎ (((s.client c).status ≢ closed) × (close_client c s ≡ shut c s))
unfolding close_client
close_cases c s = by_status (s.client c).status refl
  where
    by_status :
        (status : Status)
        → (s.client c).status ≡ status
        → (((s.client c).status ≡ closed) × (close_client c s ≡ s))
          ⊎ (((s.client c).status ≢ closed) × (close_client c s ≡ shut c s))
    by_status initialized e = inr (λ k. cc, rw (e, close_client) refl)
    by_status in_world e = inr (λ k. cc, rw (e, close_client) refl)
    by_status closed e = inl (e, rw (e, close_client) refl)

close_again : (c : ClientPtr) (s : Server) → (s.client c).status ≡ closed → close_client c s ≡ s
close_again c s e = elim (close_cases c s) [ inl (k, same) ↦ same | inr (n, shuts) ↦ absurd (n e) ]

-- Closing a client. If it was closed already, nothing changes. Else it is closed then, one `CLOSE`
-- operation is scheduled, and, if its entity is in a cell, the removal of the entity from that cell.
-- Closing again changes nothing.
pub close_client_lem :
    (c : ClientPtr) (s : Server)
    → let s' = close_client c s in
      ((((s.client c).status ≡ closed) × (s' ≡ s)) ⊎ Shut c s s') × (close_client c s' ≡ s')
close_client_lem c s = elim (close_cases c s) [
  | inl (k, same) ↦ (inl (k, same), ap (close_client c) same)
  | inr (n, shuts) ↦ rw shuts (inr (shut-Shut c s), close_again c (shut c s) (shut-Shut c s).0)
]
