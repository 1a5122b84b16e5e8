-- ===== src/Tests/Links.antt =====
-- The theorems on the link emulator at concrete runs.
use pcom.Prelude.{ℕ, List, [], ◌∷◌, ◌++◌, ◌≡◌, refl, arith, some, true}
use pcom.Link.{
  Msg, MsgInFlight, Config, Draws, Stage, looking, decided, settled, sleeping, waiting_cond,
  aborted, State, boot, enqueue_message, run_forwarding, deliver, schedule,
}
use pcom.Link.Forwarding.{arrival}
use pcom.Link.Interleaving.{finish, advance, arrive, Conserves, Steps-Conserves}
use pcom.Text.{bytes_of}
use pcom.Link.Params.{Parameter, loss, param, undefined, parameter_of, split_param}
use pcom.Link.Argument.{split_param-long}
use pcom.Link.Race.{schedule-busy}

abbrev link : Config
link = record { serialization_delay = 1000; delay = 500; loss = 10; corrupt = 0 }

abbrev hello : Msg
hello = record { len = 2; payload = 104 ∷ 105 ∷ [] }

abbrev lucky : Draws
lucky = record { loss_draw = 50; corrupt_draw = 3; place = 0; value = 0 }

accepted : run_forwarding link lucky hello boot ≡ some (enqueue_message hello boot)
unfolding run_forwarding boot
accepted = refl

Steps-Conserves_example :
    Conserves link boot
      (arrival boot lucky hello ∷ [])
      ((schedule link 7 looking (enqueue_message hello boot)).1 ++ [])
      ((schedule link 7 looking (enqueue_message hello boot)).0)
unfolding enqueue_message boot pcom.Link.wake
Steps-Conserves_example = Steps-Conserves link (arrive lucky hello accepted (advance 7 finish))

abbrev busy : State
busy = record {
  buffer = [];
  in_flight = record { m = hello; finish_time = 1507 } ∷ [];
  idle_time = 1007;
  stage = settled 1200;
}

abbrev loaded : State
loaded = record busy { buffer = hello ∷ []; stage = decided true 1200 }

schedule-busy_example : (schedule link 0 (settled 1200) busy).0.stage ≡ sleeping 0
schedule-busy_example =
    schedule-busy link 0 1200 busy (omega arith) (record { m = hello; finish_time = 1507 }) [] refl
      (omega arith)

abbrev quiet : State
quiet = record { buffer = []; in_flight = []; idle_time = 1007; stage = settled 1200 }

abbrev loss_name : List ℕ
loss_name = bytes_of "loss"

is_loss : parameter_of loss_name ≡ some loss
unfolding parameter_of pcom.Link.Params.same_name pcom.Link.Params.lower
is_loss = refl

split_param-long_example : split_param (loss_name ++ (61 ∷ bytes_of "0.125")) ≡ undefined
split_param-long_example =
    split_param-long loss_name (bytes_of "0.125") loss (omega arith) is_loss (omega arith)
      (omega arith)
