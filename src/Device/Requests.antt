-- ===== src/Device/Requests.antt =====
-- What a request for a variable answers.
use mathlib.Core.Path.{subst}
use gmrender_resurrect.Prelude.{
  ℕ, zero, suc, ◌+◌, ◌<◌, ◌≡◌, ◌≢◌, ltb, refl, sym, ap, ◌∙◌, arith, Bool, true, false, Option, none,
  some, List, if◌then◌else◌,
}
use gmrender_resurrect.Prelude.Text.{Bytes, str_eq, str_eq_refl, str_eq-eq}
use gmrender_resurrect.Prelude.Int.{ℤ, pos}
use gmrender_resurrect.VariableContainer
use gmrender_resurrect.VariableContainer.{Container}
use gmrender_resurrect.ActionEvent.{ErrCode, success, invalid_var}
use gmrender_resurrect.Device.{
  DeviceService, VarRequest, find_service, find_value, value_code, handle_var_request,
}

-- The value of the first variable with that name, or the error that there is none.
pub data IsAnswer (c : Container) (name : Bytes) : Option Bytes → ErrCode → Type 0 where
  told :
      (i : ℕ) (value : Bytes)
      → i < c.variable_num
      → VariableContainer.get_named c (pos i) ≡ some (name, value)
      → ((j : ℕ) (v : Bytes) → j < i → VariableContainer.get_named c (pos j) ≢ some (name, v))
      → IsAnswer c name (some value) success
  unknown :
      ((j : ℕ) (v : Bytes)
        → j < c.variable_num
        → VariableContainer.get_named c (pos j) ≢ some (name, v))
      → IsAnswer c name none invalid_var

-- No variable before `i` has the name.
abbrev Before : Container → Bytes → ℕ → Type 0
Before c name i =
    (j : ℕ) (v : Bytes) → j < i → VariableContainer.get_named c (pos j) ≢ some (name, v)

Before-next :
    (c : Container) (name : Bytes) (i : ℕ)
    → ((v : Bytes) → VariableContainer.get_named c (pos i) ≢ some (name, v))
    → Before c name i
    → Before c name (i + 1)
Before-next c name i h b j v lt e = go (ltb j i) refl
  where
    go : (t : Bool) → ltb j i ≡ t → ⊥
    go true et = b j v (ground (arith, et)) e
    go false et =
        let same : i ≡ j = ground (arith, et, lt) in
        h v (ap (λ k. VariableContainer.get_named c (pos k)) same ∙ e)

find_value-IsAnswer :
    (c : Container) (name : Bytes) (left i : ℕ)
    → left + i ≡ c.variable_num
    → Before c name i
    → IsAnswer c name (find_value c name left i) (value_code (find_value c name left i))
unfolding find_value value_code
find_value-IsAnswer c name zero i e b = unknown (λ j v lt. b j v (omega arith))
find_value-IsAnswer c name (suc left) i e b =
    by_variable
      (λ h. find_value-IsAnswer c name left (i + 1) (omega (arith, e)) (Before-next c name i h b))
      (VariableContainer.get_named c (pos i)) refl
  where
    Later : Type 0
    Later =
        ((v : Bytes) → VariableContainer.get_named c (pos i) ≢ some (name, v))
        → IsAnswer c name (find_value c name left (i + 1))
            (value_code (find_value c name left (i + 1)))

    by_name :
        Later
        → (n v : Bytes) → VariableContainer.get_named c (pos i) ≡ some (n, v)
        → (t : Bool) → str_eq name n ≡ t
        → IsAnswer c name
            (if t then some v else find_value c name left (i + 1))
            (value_code (if t then some v else find_value c name left (i + 1)))
    by_name later n v er true et =
        told i v (omega (arith, e)) (er ∙ ap (λ m. some (m, v)) (sym (str_eq-eq name n et))) b
    by_name later n v er false et = later (λ w ew. ground (arith, er, ew, et, str_eq_refl name))

    by_variable :
        Later
        → (r : Option (Bytes × Bytes)) → VariableContainer.get_named c (pos i) ≡ r
        → IsAnswer c name
            (elim r [
              | none ↦ find_value c name left (i + 1)
              | some (n, v) ↦ if str_eq name n then some v else find_value c name left (i + 1)
            ])
            (value_code (elim r [
              | none ↦ find_value c name left (i + 1)
              | some (n, v) ↦ if str_eq name n then some v else find_value c name left (i + 1)
            ]))
    by_variable later none er = later (λ w ew. ground (arith, er, ew))
    by_variable later (some (n, v)) er = by_name later n v er (str_eq name n) refl

handled_eq :
    (services : List DeviceService) (event : VarRequest) (srv : DeviceService)
    → find_service services event.service_id ≡ some srv
    → handle_var_request services event ≡ (
      pos 0,
      record event {
        current_val = find_value srv.container event.state_var_name srv.container.variable_num 0;
        err_code =
            value_code (find_value srv.container event.state_var_name srv.container.variable_num 0);
      },
    )
unfolding handle_var_request VariableContainer.get_num_vars
handled_eq services event srv e = ground (arith, e)

abbrev Answered : DeviceService → Bytes → ℤ × VarRequest → Type 0
Answered srv name (rc, event) =
    (rc ≡ pos 0) × IsAnswer srv.container name event.current_val event.err_code

-- A request for a variable of a service that is registered gives 0 and the value of the first
-- variable with that name and the success code, or no value and the code of an invalid variable if
-- there is none.
pub handle_var_request-IsAnswer :
    (services : List DeviceService) (event : VarRequest) (srv : DeviceService)
    → find_service services event.service_id ≡ some srv
    → ((handle_var_request services event).0 ≡ pos 0)
      × IsAnswer srv.container event.state_var_name
          (handle_var_request services event).1.current_val
          (handle_var_request services event).1.err_code
handle_var_request-IsAnswer services event srv e =
    subst (Answered srv event.state_var_name) (sym (handled_eq services event srv e)) (
      refl,
      find_value-IsAnswer srv.container event.state_var_name srv.container.variable_num 0
          (omega arith) (λ j v lt. absurd (omega (arith, lt))),
    )
