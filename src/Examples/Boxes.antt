-- ===== src/Examples/Boxes.antt =====
-- The service of mailboxes at concrete inputs. Every address is valid and in lower case.
use yunt.Prelude.{
  String, Bool, true, false, none, some, List, [], ◌∷◌, ◌≡◌, ◌≤◌, refl, arith, str_eq,
}
use yunt.Prelude.Int.{pos}
use yunt.Service.Mailboxes.{MailboxCreateInput, MailboxUpdateInput}
use yunt.Service.Mailboxes.Defaults.{count_defaults}
use yunt.Service.Mailboxes.Operations.{
  Operation, create, update, delete_it, set_default_it, run_all, run_all-AtMostOne,
}

abbrev kept : String → String
kept s = s

abbrev every : String → Bool
every s = true

abbrev box : String → MailboxCreateInput
box name = record {
  user_id = "ann";
  name = name;
  address = name;
  description = "";
  is_catch_all = false;
  is_default = true;
  retention_days = pos 0;
}

abbrev chosen : MailboxUpdateInput
chosen = record { name = none; description = none; is_default = some true; retention_days = none }

abbrev calls : List Operation
calls =
    create 1 "x" (box "work")
    ∷ create 2 "y" (box "home")
    ∷ set_default_it 3 "x" "ann"
    ∷ update 4 "y" "ann" chosen
    ∷ set_default_it 5 "x" "bob"
    ∷ delete_it 6 "x" "ann"
    ∷ []

run_all-calls : count_defaults "ann" (run_all kept str_eq kept every calls []) ≡ 1
unfolding run_all count_defaults yunt.Repository.Mailboxes.get_by_id yunt.Prelude.Maps.lookup
    yunt.Repository.Mailboxes.exists_by_address yunt.Repository.Mailboxes.create_row
    yunt.Repository.Mailboxes.clear_default yunt.Prelude.Maps.insert yunt.Domain.Mailbox.new_mailbox
    yunt.Repository.Mailboxes.set_default yunt.Repository.Mailboxes.update_row
    yunt.Repository.Mailboxes.delete_with_messages yunt.Prelude.Maps.delete
run_all-calls = refl

none_yet : (v : String) → count_defaults v [] ≤ 1
unfolding count_defaults
none_yet v = omega arith

run_all-AtMostOne_example : count_defaults "ann" (run_all kept str_eq kept every calls []) ≤ 1
run_all-AtMostOne_example = run_all-AtMostOne kept str_eq kept every calls [] none_yet "ann"
