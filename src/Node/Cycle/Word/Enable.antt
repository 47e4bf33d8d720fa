-- ===== src/Node/Cycle/Word/Enable.antt =====
-- cpp/src/epos_control/src/epos_motor_node.cpp: the loop and the drive together, from a drive that has
-- started to one in operation.
use motor_control.Base.{
  ℕ, ◌+◌, ◌*◌, ◌≤◌, ◌<◌, ◌≡◌, ◌∙◌, ◌⊎◌, inl, inr, Bool, true, false, List, [], ◌∷◌, length, arith,
}
use motor_control.Double.{Double}
use motor_control.Ethercat.Pdo.{InPdo, OutPdo}
use motor_control.Ethercat.Cia402.{
  control_shutdown, control_switch_on, control_enable_operation, is_fault, next_control_word,
}
use motor_control.Ethercat.Cia402.States.{
  IsDisabled, IsReady, IsSwitchedOn, IsEnabled, disabled_word, ready_word, switched_word,
  enabled_word,
}
use motor_control.Node.State.{Node}
use motor_control.Node.Cycle.Timing.{CycleTime}
use motor_control.Node.Cycle.Mode.{enable_wanted}
use motor_control.Node.Cycle.Finish.{control_of}
use motor_control.Node.Cycle.Safe.{good_round}
use motor_control.Node.Cycle.Word.Rounds.{round-Decided}
use motor_control.Node.Cycle.{rt_cycle}

-- The drive, which is not part of the program, from one exchange of process data to the next: what it
-- sends in the exchange, what the next exchange makes of it, which brings it the output data of the
-- round between the two, and whether a fault or a loss of power has moved it in the last exchange.
pub record Drive (S : Type 0) : Type 0 where
  pub inputs : S → InPdo
  pub next : OutPdo → S → S
  pub disturbed : S → Bool

module _ {S : Type 0} (drive : Drive S) where
  abbrev pub status_of : S → ℕ
  status_of s = (drive.inputs s).status_word

  -- A transition that the control word `word` asks for, out of the states of `From`: a drive that is
  -- not disturbed makes it, or stays and has fewer exchanges to wait.
  abbrev pub Answers : (S → ℕ) → ℕ → (ℕ → Type 0) → (ℕ → Type 0) → Type 0
  Answers delay word From To =
      (s : S) (out : OutPdo)
      → From (status_of s)
      → out.control_word ≡ word
      → drive.disturbed (drive.next out s) ≡ false
      → To (status_of (drive.next out s))
        ⊎ (From (status_of (drive.next out s)) × (delay (drive.next out s) < delay s))

  -- The transitions 2, 3 and 4 of CiA 402, which lead to operation, each after at most `limit` more
  -- exchanges, and operation, which only a disturbance or another control word ends.
  pub record Responds (limit : ℕ) : Type 0 where
    pub delay : S → ℕ
    pub in_time : (s : S) → delay s ≤ limit
    pub shutdown : Answers delay control_shutdown IsDisabled IsReady
    pub switch_on : Answers delay control_switch_on IsReady IsSwitchedOn
    pub enable : Answers delay control_enable_operation IsSwitchedOn IsEnabled
    pub stay :
        (s : S) (out : OutPdo)
        → IsEnabled (status_of s)
        → out.control_word ≡ control_enable_operation
        → drive.disturbed (drive.next out s) ≡ false
        → IsEnabled (status_of (drive.next out s))

  module _ {F : Type 0} ⦃d : Double F⦄ where
    -- A round of the loop on what the drive sends, and then the drive on what the round wrote.
    abbrev pub turn : CycleTime × ℕ → Node F × S → Node F × S
    turn (time, w) (n, s) =
        let m = rt_cycle (good_round time w (drive.inputs s)) n in (m, drive.next m.out s)

    abbrev pub turns : List (CycleTime × ℕ) → Node F × S → Node F × S
    turns [] x = x
    turns (t ∷ ts) x = turns ts (turn t x)

    -- The word of a round without a fault, and the wish that it keeps.
    turn-word :
        (t : CycleTime × ℕ) (n : Node F) (s : S)
        → enable_wanted n ≡ true
        → is_fault (status_of s) ≡ false
        → ((turn t (n, s)).0.out.control_word ≡ next_control_word (status_of s) true)
          × (enable_wanted (turn t (n, s)).0 ≡ true)
    unfolding control_of
    turn-word t n s wish sound =
        let done = round-Decided t.0 t.1 (drive.inputs s) n in
        (ground (arith, done.word, wish, sound), done.wish ∙ wish)

    -- Nothing disturbs the drive over the rounds.
    abbrev pub Undisturbed : List (CycleTime × ℕ) → Node F × S → Type 0
    Undisturbed [] x = Unit
    Undisturbed (t ∷ ts) x = (drive.disturbed (turn t x).1 ≡ false) × Undisturbed ts (turn t x)

    module _ {limit : ℕ} (doc : Responds limit) where
      stays-IsEnabled :
          (ts : List (CycleTime × ℕ)) (n : Node F) (s : S)
          → enable_wanted n ≡ true
          → IsEnabled (status_of s)
          → Undisturbed ts (n, s)
          → IsEnabled (status_of (turns ts (n, s)).1)
      stays-IsEnabled [] n s wish here calm = here
      stays-IsEnabled (t ∷ ts) n s wish here calm =
          let (sound, word) = enabled_word (status_of s) here in
          let (sent, still) = turn-word t n s wish sound in
          let x = turn t (n, s) in
          stays-IsEnabled ts x.0 x.1 still (doc.stay s x.0.out here (sent ∙ word) calm.0) calm.1

  module _ (F : Type 0) ⦃d : Double F⦄ where
    -- Operation is reached in at most `left` rounds from a state of the drive.
    abbrev Reaches : ℕ → (ℕ → Type 0) → Type 0
    Reaches left From =
        (ts : List (CycleTime × ℕ)) (n : Node F) (s : S)
        → enable_wanted n ≡ true
        → From (status_of s)
        → Undisturbed ts (n, s)
        → left ≤ length ts
        → IsEnabled (status_of (turns ts (n, s)).1)

  -- The states of `From` are no fault, and the program answers them by `word`.
  abbrev Asks : ℕ → (ℕ → Type 0) → Type 0
  Asks word From =
      (status : ℕ)
      → From status
      → (is_fault status ≡ false) × (next_control_word status true ≡ word)

  module _ {F : Type 0} ⦃d : Double F⦄ where
    module _ {limit : ℕ} (doc : Responds limit) where
      -- One transition more.
      through :
          (word left : ℕ) (From To : ℕ → Type 0)
          → Asks word From
          → Answers doc.delay word From To
          → Reaches F left To
          → (ts : List (CycleTime × ℕ)) (n : Node F) (s : S) → enable_wanted n ≡ true
          → From (status_of s)
          → Undisturbed ts (n, s)
          → doc.delay s + 1 + left ≤ length ts
          → IsEnabled (status_of (turns ts (n, s)).1)
      through word left From To asks answers rest [] n s wish here calm long = absurd (omega arith)
      through word left From To asks answers rest (t ∷ ts) n s wish here calm long =
          let (sound, next) = asks (status_of s) here in
          let (sent, still) = turn-word t n s wish sound in
          let x = turn t (n, s) in
          elim (answers s x.0.out here (sent ∙ next) calm.0) [
            | inl there ↦ rest ts x.0 x.1 still there calm.1 (omega (arith, long))
            | inr waits ↦
                through word left From To asks answers rest ts x.0 x.1 still waits.0 calm.1
                  (omega (arith, long, waits.1))
          ]

      -- The same for any drive in the state, however long it still waits.
      one_more :
          (word left : ℕ) (From To : ℕ → Type 0)
          → Asks word From
          → Answers doc.delay word From To
          → Reaches F left To
          → Reaches F (limit + 1 + left) From
      one_more word left From To asks answers rest ts n s wish here calm long =
          through word left From To asks answers rest ts n s wish here calm
            (omega (arith, long, doc.in_time s))

      IsEnabled-Reaches : Reaches F 0 IsEnabled
      IsEnabled-Reaches ts n s wish here calm long = stays-IsEnabled doc ts n s wish here calm

      IsSwitchedOn-Reaches : Reaches F (limit + 1 + 0) IsSwitchedOn
      IsSwitchedOn-Reaches =
          one_more control_enable_operation 0 IsSwitchedOn IsEnabled switched_word doc.enable
            IsEnabled-Reaches

      IsReady-Reaches : Reaches F (limit + 1 + (limit + 1 + 0)) IsReady
      IsReady-Reaches =
          one_more control_switch_on (limit + 1 + 0) IsReady IsSwitchedOn ready_word doc.switch_on
            IsSwitchedOn-Reaches

    -- With a wish to enable, and a drive in switch on disabled that, as long as nothing
    -- disturbs it, makes each of the three transitions that the control words ask for, after at
    -- most `limit` more exchanges, and stays in operation as long as the word asks for it:
    -- after 3 * (limit + 1) rounds that exchange process data, or more, over which nothing
    -- disturbs the drive, it is in operation. The output data of a round reach the drive in the
    -- exchange of the next one.
    pub drive-IsEnabled :
        (limit : ℕ) (doc : Responds limit) (ts : List (CycleTime × ℕ)) (n : Node F) (s : S)
        → enable_wanted n ≡ true
        → IsDisabled (status_of s)
        → Undisturbed ts (n, s)
        → 3 * (limit + 1) ≤ length ts
        → IsEnabled (status_of (turns ts (n, s)).1)
    drive-IsEnabled limit doc ts n s wish disabled calm long =
        one_more doc control_shutdown (limit + 1 + (limit + 1 + 0)) IsDisabled IsReady disabled_word
          doc.shutdown (IsReady-Reaches doc) ts n s wish disabled calm (omega (arith, long))
