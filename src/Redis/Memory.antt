-- ===== src/Redis/Memory.antt =====
-- A Redis server in memory, which shows that the laws of `Redis` can hold: each key has its value
-- and, if it was set with EX, the rest of its life in seconds.
use remote_connect_backend.Base.{
  ℕ, ◌≡◌, refl, Bool, true, false, Option, none, some, is_some, arith, if◌then◌else◌,
}
use remote_connect_backend.Base.Text.{Text, ◌≐◌}
use remote_connect_backend.Redis.{Value, Redis, aged, survives}

abbrev pub Cells : Type 0
Cells = Text → Option (Value × Option ℕ)

abbrev pub Cell : Type 0
Cell = Option (Value × Option ℕ)

abbrev pub value_of : Cell → Option Value
value_of none = none
value_of (some (v, l)) = some v

abbrev pub life_of : Cell → Option ℕ
life_of none = none
life_of (some (v, l)) = l

abbrev pub fetch : Cells → Text → Option Value
fetch s k = value_of (s k)

abbrev pub rest_of_life : Cells → Text → Option ℕ
rest_of_life s k = life_of (s k)

value_of-if :
    (b : Bool) (x y : Cell) → value_of (if b then x else y) ≡ (if b then value_of x else value_of y)
value_of-if true x y = refl
value_of-if false x y = refl

life_of-if :
    (b : Bool) (x y : Cell) → life_of (if b then x else y) ≡ (if b then life_of x else life_of y)
life_of-if true x y = refl
life_of-if false x y = refl

abbrev pub write : Text → Value → Option ℕ → Cells → Cells
write k v l s j = if k ≐ j then some (v, l) else s j

abbrev pub erase : Text → Cells → Cells
erase k s j = if k ≐ j then none else s j

abbrev pub pass : ℕ → Cells → Cells
pass n s j = elim (s j) [
  | none ↦ none
  | some (v, l) ↦ if survives n l then some (v, aged n l) else none
]

pub fetch-write :
    (k j : Text) (v : Value) (l : Option ℕ) (s : Cells)
    → fetch (write k v l s) j ≡ (if k ≐ j then some v else fetch s j)
fetch-write k j v l s = value_of-if (k ≐ j) (some (v, l)) (s j)

pub rest_of_life-write :
    (k j : Text) (v : Value) (l : Option ℕ) (s : Cells)
    → rest_of_life (write k v l s) j ≡ (if k ≐ j then l else rest_of_life s j)
rest_of_life-write k j v l s = life_of-if (k ≐ j) (some (v, l)) (s j)

pub fetch-erase :
    (k j : Text) (s : Cells) → fetch (erase k s) j ≡ (if k ≐ j then none else fetch s j)
fetch-erase k j s = value_of-if (k ≐ j) none (s j)

pub rest_of_life-erase :
    (k j : Text) (s : Cells)
    → rest_of_life (erase k s) j ≡ (if k ≐ j then none else rest_of_life s j)
rest_of_life-erase k j s = life_of-if (k ≐ j) none (s j)

pub fetch-pass :
    (n : ℕ) (s : Cells) (j : Text)
    → fetch (pass n s) j ≡ (if survives n (rest_of_life s j) then fetch s j else none)
fetch-pass n s j = ground arith

pub rest_of_life-pass :
    (n : ℕ) (s : Cells) (j : Text) → rest_of_life (pass n s) j ≡ aged n (rest_of_life s j)
rest_of_life-pass n s j = ground arith

abbrev pub memory : Redis
memory = record {
  Server = Cells;
  get = fetch;
  life = rest_of_life;
  set = λ k v s. write k v none s;
  set_ex = λ k v t s. write k v (some t) s;
  set_nx_ex = λ k v t s. if is_some (fetch s k) then s else write k v (some t) s;
  delete = erase;
  wait = pass;
  get-set = λ k j v s. fetch-write k j v none s;
  get-set_ex = λ k j v t s _. fetch-write k j v (some t) s;
  get-delete = fetch-erase;
  set_nx_ex_lem = λ k v t s. refl;
  life-set = λ k j v s. rest_of_life-write k j v none s;
  life-set_ex = λ k j v t s _. rest_of_life-write k j v (some t) s;
  life-delete = rest_of_life-erase;
  get-wait = fetch-pass;
  life-wait = rest_of_life-pass;
}

abbrev pub empty : Cells
empty k = none
