-- ===== src/Tests/Errors.antt =====
-- An error of the apply of the role of the leader election is dropped.
use authorino_operator.Prelude.{none, some, ◌&&◌}
use authorino_operator.Reconcilers.Components.{leader_election_role}
use authorino_operator.Reconcilers.Errors.{
  Answers, Part, is_error, is_reported, result_of, result_of-Answers,
}
use authorino_operator.Reconcilers.Resource.{Crud}
use authorino_operator.Tests.Fixtures.{cluster, cr, ctx, not_found, start}

result_of-Answers_example :
    Answers
      (is_reported Part.leader_election_role Crud.update && is_error (some not_found))
      (result_of cluster ctx cr
        (leader_election_role cr)
        Part.leader_election_role
        (Crud.update, none, some not_found))
      start
result_of-Answers_example =
    result_of-Answers cluster ctx cr (leader_election_role cr) Part.leader_election_role Crud.update
      none (some not_found) start
