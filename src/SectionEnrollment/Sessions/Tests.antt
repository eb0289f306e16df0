-- ===== src/SectionEnrollment/Sessions/Tests.antt =====
-- A session that enrolls on the campus while another one withdraws.
use infraestructura_y_servic.Base.{
  ◌≤◌, inl, refl, none, arith, find_first, count_if, update_where, false,
}
use infraestructura_y_servic.SectionEnrollment.Queries.{
  find_section, find_key, active_seats, is_open, can_withdraw, withdrawn_at,
}
use infraestructura_y_servic.SectionEnrollment.Repository.Effects.{with_row, with_update}
use infraestructura_y_servic.SectionEnrollment.Campus.{
  open_section, campus, open_row, campus-IsSound,
}
use infraestructura_y_servic.SectionEnrollment.Sessions.{
  outside, locked, admitted, State, put, lock, admit, insert, withdraw, Reach, here, next,
}
use infraestructura_y_servic.SectionEnrollment.Sessions.Overbooking.{Reach-active_seats}

abbrev quiet_campus : State
quiet_campus = record { db = campus; phase = λ _. outside }

abbrev enrolled_campus : State
enrolled_campus = record {
  db = with_row 11 100 (with_update (can_withdraw 201) (withdrawn_at 15) campus);
  phase = put 1 outside (put 1 (admitted 100 11 none) (put 1 (locked 100 open_row) (λ _. outside)));
}

one_enrolls : Reach quiet_campus enrolled_campus
unfolding find_section find_first find_key count_if is_open update_where
one_enrolls =
    next
      (next
        (next (next here (lock 1 100 open_row refl (λ u. ground arith) refl))
          (admit 1 100 11 open_row false none refl (inl (refl, refl)) (omega arith)))
        (withdraw 201))
      (insert 1 100 11 refl refl)

Reach-active_seats_example : active_seats 100 enrolled_campus.db.section_enrollments ≤ 2
unfolding find_section find_first
Reach-active_seats_example =
    Reach-active_seats quiet_campus enrolled_campus campus-IsSound (λ _. refl) one_enrolls 100
      open_section refl
