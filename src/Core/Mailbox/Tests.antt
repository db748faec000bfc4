-- ===== src/Core/Mailbox/Tests.antt =====
-- A queue that is a list, for the tests of those who use one.
use shiny_song_tools.Prelude.{
  ℕ, ◌≡◌, refl, Bool, arith, Option, none, some, List, [], ◌∷◌, ◌++◌, length, ltb, if◌then◌else◌,
}
use shiny_song_tools.Core.Mailbox.{ArrayQueue}

module _ {T : Type 0} where
  abbrev pop_front : List T → List T × Option T
  pop_front [] = ([], none)
  pop_front (x ∷ xs) = (xs, some x)

  abbrev push_back : ℕ → List T → T → List T × Bool
  push_back cap q x = (if ltb (length q) cap then q ++ x ∷ [] else q, ltb (length q) cap)

  pub pop_front-empty : (q : List T) → q ≡ [] → ((pop_front q).0 ≡ []) × ((pop_front q).1 ≡ none)
  pop_front-empty [] h = (refl, refl)
  pop_front-empty (x ∷ xs) h = ground (arith, h)

  pub pop_front-cons :
      (q : List T) (x : T) (xs : List T)
      → q ≡ x ∷ xs
      → ((pop_front q).0 ≡ xs) × ((pop_front q).1 ≡ some x)
  pop_front-cons [] x xs h = ground (arith, h)
  pop_front-cons (y ∷ q) x xs h = ground (arith, h)

  abbrev pub list_queue : ℕ → ArrayQueue T
  list_queue cap = record {
    State = List T;
    capacity = cap;
    elements = λ q. q;
    new = [];
    push = push_back cap;
    pop = pop_front;
    len = length;
    elements-new = refl;
    pushed = λ q x. (refl, refl);
    popped_none = pop_front-empty;
    popped_some = pop_front-cons;
    len-elements = λ q. refl;
  }
