-- ===== src/RateLimit/Capacity.antt =====
-- SlidingWindowRateLimiter: the clients that are kept during a run.
use ai_powered_premier_leagu.Prelude.{
  ℕ, ◌==◌, ◌≡◌, ◌≤◌, false, Option, none, some, List, [], ◌∷◌, ◌++◌, length, refl, inl, inr, arith,
  Bool-cases, suc, subst, mem, to_set, length-append, mem-to_set,
}
use ai_powered_premier_leagu.RateLimit.{Limits, Client, Request, stamps_of, room_for}
use ai_powered_premier_leagu.RateLimit.Window.{
  stamps_of-append, stamps_of-without, stamps_of-without_other, length-without_found, entry,
}

-- The clients of a run together with those before it, the last first.
unfoldable pub clients_seen : List ℕ → List Request → List ℕ
clients_seen seen [] = seen
clients_seen seen (r ∷ rs) = clients_seen (r.client ∷ seen) rs

pub length-seen :
    (seen : List ℕ) (rs : List Request)
    → length (to_set seen) ≤ length (to_set (clients_seen seen rs))
unfolding clients_seen
length-seen seen [] = omega arith
length-seen seen (r ∷ rs) = let grows = length-seen (r.client ∷ seen) rs in ground arith

-- Every client of the run so far is still kept, and no other.
unfoldable pub Keeps : List Client → List ℕ → Type 0
Keeps clients seen =
    (length clients ≤ length (to_set seen))
    × ((key : ℕ) → stamps_of key clients ≡ none → mem key seen ≡ false)

module _ (l : Limits) (key : ℕ) (clients : List Client) (seen : List ℕ) where
  unfoldable pub Room : List Client → Type 0
  Room others =
      (stamps_of key others ≡ none)
      × ((j : ℕ) → (j == key) ≡ false → stamps_of j others ≡ stamps_of j clients)
      × (suc (length others) ≤ length (to_set (key ∷ seen)))

  pub room_for-Keeps :
      (found : Option (List ℕ))
      → stamps_of key clients ≡ found
      → Keeps clients seen
      → length (to_set (key ∷ seen)) ≤ l.max_clients
      → Room (room_for l key clients found)
  unfolding Keeps Room
  room_for-Keeps none is keeps fits =
      let new = keeps.1 key is in
      let few = keeps.0 in
      let grows : suc (length clients) ≤ length (to_set (key ∷ seen)) =
        ground (arith, mem-to_set key seen) in
      subst Room (ground arith) (is, (λ j other. refl), grows)
  room_for-Keeps (some ts) is keeps fits = (
    stamps_of-without key clients,
    (λ j other. stamps_of-without_other j key clients other),
    let fewer = length-without_found key clients ts is in let few = keeps.0 in ground arith,
  )

  pub placed-Keeps :
      (others : List Client) (ts : List ℕ)
      → Room others
      → Keeps clients seen
      → Keeps (others ++ entry key ts ∷ []) (key ∷ seen)
  unfolding Keeps Room
  placed-Keeps others ts room keeps =
      let size = room.2 in
      let joined = length-append others (entry key ts ∷ []) in
      (
        omega arith,
        λ j gone.
            let placed = stamps_of-append j key ts others (room.0) in
            let before = room.1 j in
            elim (Bool-cases (j == key)) [
              | inl same ↦ let absent : none ≡ some ts = ground arith in cc
              | inr other ↦
                  let kept = room.1 j other in let old = keeps.1 j (ground arith) in ground arith
            ],
      )
