-- ===== src/Ctp.antt =====
-- The communicating task pairs of software/kernel/modules/enforcer_sdn.c: which pairs of tasks use
-- a circuit-switched subnet, in which direction, and whether the circuit is enabled yet. The array
-- is a list of MAX_CTP entries.
pub mod Laws
use mmemphis.Base.{
  ℕ, Bool, ◌&&◌, none, some, List, map, ◌==◌, if◌then◌else◌, modify, first?, index?, replace?,
  minus_one, Outcome, done, ◌>>=◌, or_hang,
}

pub record Ctp : Type 0 where
  pub producer_task : ℕ
  pub consumer_task : ℕ
  pub dmni_op : ℕ
  pub subnet : ℕ
  pub cs_enabled : ℕ

abbrev pub dmni_send_op : ℕ
dmni_send_op = 0

abbrev pub dmni_receive_op : ℕ
dmni_receive_op = 1

-- The fields that `init_ctp` and `remove_ctp` reset; the tasks stay in the entry.
abbrev pub reset : Ctp → Ctp
reset e = record e { subnet = minus_one; dmni_op = minus_one; cs_enabled = 0 }

unfoldable pub init_ctp : List Ctp → List Ctp
init_ctp table = map reset table

abbrev pub on_subnet : ℕ → ℕ → Ctp → Bool
on_subnet subnet dmni_op e = e.subnet == subnet && e.dmni_op == dmni_op

abbrev pub is_pair : ℕ → ℕ → ℕ → Ctp → Bool
is_pair producer_task consumer_task dmni_op e =
    e.producer_task == producer_task && e.consumer_task == consumer_task && e.dmni_op == dmni_op

abbrev pub is_free : Ctp → Bool
is_free e = e.subnet == minus_one

-- Pointers into the array are indices.
unfoldable pub get_ctp_ptr : ℕ → ℕ → List Ctp → Outcome ℕ
get_ctp_ptr subnet dmni_op table = or_hang (index? (on_subnet subnet dmni_op) table)

unfoldable pub add_ctp : ℕ → ℕ → ℕ → ℕ → List Ctp → Outcome (ℕ × List Ctp)
add_ctp producer_task consumer_task dmni_op subnet table = do
  i ← or_hang (index? is_free table)
  done (i, modify table i (λ _. pair))
  where
    pair : Ctp
    pair = record {
      producer_task = producer_task;
      consumer_task = consumer_task;
      dmni_op = dmni_op;
      subnet = subnet;
      cs_enabled = 0;
    }

unfoldable pub remove_ctp : ℕ → ℕ → List Ctp → Outcome (List Ctp)
remove_ctp subnet dmni_op table = or_hang (replace? (on_subnet subnet dmni_op) reset table)

-- -1: the pair communicates by packet switching.
unfoldable pub get_subnet : ℕ → ℕ → ℕ → List Ctp → ℕ
get_subnet producer_task consumer_task dmni_op table =
    elim (first? (is_pair producer_task consumer_task dmni_op) table) [
      | none ↦ minus_one
      | some e ↦ if e.cs_enabled == 0 then minus_one else e.subnet
    ]

-- `ctp_ptr->CS_enabled = 1;`
unfoldable pub enable : ℕ → List Ctp → List Ctp
enable i table = modify table i (λ e. record e { cs_enabled = 1 })
