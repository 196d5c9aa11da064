-- ===== src/Params/Starting.antt =====
-- When the nodes start.
use Prim.Native.String.{String}
use digital_twin_based_on_un.Common.{
  ◌≡◌, refl, ap, ◌↔◌, Bool, true, List, Option, none, some, is_some, All, [], ◌∷◌, arith,
  if◌then◌else◌,
}
use digital_twin_based_on_un.Common.Floats.{Floats}
use digital_twin_based_on_un.Bridges.Joints.{lookup}
use digital_twin_based_on_un.Params.{Declare, Value, Declarations, ◌>>=◌, declare_all}
use digital_twin_based_on_un.Params.Reading.{KeepsType, Accepts, Accepts-declare_all}
use digital_twin_based_on_un.Params.Watchdog
use digital_twin_based_on_un.Params.Conditioner
use digital_twin_based_on_un.Params.StateBridge
use digital_twin_based_on_un.Params.Servo
use digital_twin_based_on_un.Params.Publisher
use digital_twin_based_on_un.Params.RobotInfo
use digital_twin_based_on_un.Params.ControllerStatus
use digital_twin_based_on_un.Params.EnableBridge
use digital_twin_based_on_un.Params.Observer
use digital_twin_based_on_un.Params.Mirror

is_some-bind {ℓ κ} :
    {A : Type ℓ} {B : Type κ} (o : Option A) (f : A → Option B)
    → is_some (o >>= f) ≡ true
    → is_some o ≡ true
is_some-bind none f h = h
is_some-bind (some a) f h = refl

is_some-if {ℓ} :
    {A : Type ℓ} (b : Bool) (a : A) → (is_some (if b then some a else none) ≡ true) ↔ (b ≡ true)
is_some-if b a = (λ h. ground arith, λ h. ground arith)

module _ {F : Type 0} (declare_parameter : Declare F) (ds : Declarations F) where
  -- A constructor that reads all that it needs once its parameters are declared.
  starts_lem {ℓ} :
      {A : Type ℓ} (k : List (String × Value F) → Option A) (a : A)
      → (Accepts declare_parameter ds → (declare_all declare_parameter ds >>= k) ≡ some a)
      → (is_some (declare_all declare_parameter ds >>= k) ≡ true) ↔ Accepts declare_parameter ds
  starts_lem k a reads = (
    λ h.
        Accepts-declare_all declare_parameter ds
          (is_some-bind (declare_all declare_parameter ds) k h),
    λ h. ap is_some (reads h),
  )

module _ {F : Type 0} ⦃fl : Floats F⦄ (declare_parameter : Declare F)
    (typed : KeepsType declare_parameter) where
  publisher-settings :
      (is_some (Publisher.configure declare_parameter) ≡ true)
      ↔ Accepts declare_parameter Publisher.declarations
  unfolding Publisher.configure
  publisher-settings =
      starts_lem declare_parameter Publisher.declarations _ (Publisher.asked declare_parameter)
        (Publisher.configure_lem declare_parameter typed)

  publisher-starts : (is_some (Publisher.new_publisher declare_parameter) ≡ true) ↔ (
      Accepts declare_parameter Publisher.declarations
      × (is_some (lookup (Publisher.asked declare_parameter).rtde_field Publisher.known_fields)
          ≡ true))
  unfolding Publisher.new_publisher
  publisher-starts = (
    λ h.
        let accepted =
          publisher-settings.0 (is_some-bind (Publisher.configure declare_parameter) _ h) in
        let reads = Publisher.configure_lem declare_parameter typed accepted in
        (accepted, (is_some-if _ _).0 (rw reads at h)),
    λ h. rw (Publisher.configure_lem declare_parameter typed h.0) ((is_some-if _ _).1 h.1),
  )

  mirror-starts :
      (topics : String × String)
      → (is_some (Mirror.configure topics.0 topics.1 declare_parameter) ≡ true)
        ↔ Accepts declare_parameter (Mirror.declarations topics.0 topics.1)
  unfolding Mirror.configure
  mirror-starts (input, output) =
      starts_lem declare_parameter (Mirror.declarations input output) _
        (Mirror.asked input output declare_parameter)
        (Mirror.configure_lem input output declare_parameter typed)

-- A node: its declarations, and whether its constructor succeeds.
pub record Startup (F : Type 0) : Type 0 where
  pub declarations : Declarations F
  pub succeeds : Declare F → Bool

module _ {F : Type 0} ⦃fl : Floats F⦄ where
  abbrev mirror : String × String → Startup F
  mirror topics = record {
    declarations = Mirror.declarations topics.0 topics.1;
    succeeds = λ d. is_some (Mirror.configure topics.0 topics.1 d);
  }

  -- The nodes but the torque publisher.
  abbrev pub nodes : List (Startup F)
  nodes =
      record {
        declarations = Watchdog.declarations;
        succeeds = λ d. is_some (Watchdog.configure d);
      }
      ∷ record {
        declarations = Conditioner.declarations;
        succeeds = λ d. is_some (Conditioner.configure d);
      }
      ∷ record { declarations = Servo.declarations; succeeds = λ d. is_some (Servo.configure d) }
      ∷ record {
        declarations = Observer.declarations;
        succeeds = λ d. is_some (Observer.configure d);
      }
      ∷ record {
        declarations = EnableBridge.declarations;
        succeeds = λ d. is_some (EnableBridge.configure d);
      }
      ∷ record {
        declarations = StateBridge.declarations;
        succeeds = λ d. is_some (StateBridge.configure d);
      }
      ∷ record {
        declarations = RobotInfo.declarations;
        succeeds = λ d. is_some (RobotInfo.configure d);
      }
      ∷ record {
        declarations = ControllerStatus.declarations;
        succeeds = λ d. is_some (ControllerStatus.configure d);
      }
      ∷ mirror Mirror.joint_state_topics
      ∷ mirror Mirror.joint_torque_topics
      ∷ mirror Mirror.io_states_topics
      ∷ mirror Mirror.tool_data_topics
      ∷ []

  pub starts :
      (declare_parameter : Declare F)
      → KeepsType declare_parameter
      → All
          (λ (n : Startup F).
            (n.succeeds declare_parameter ≡ true) ↔ Accepts declare_parameter n.declarations)
          nodes
        × ((is_some (Publisher.new_publisher declare_parameter) ≡ true) ↔ (
            Accepts declare_parameter Publisher.declarations
            × (is_some
                  (lookup (Publisher.asked declare_parameter).rtde_field Publisher.known_fields)
                ≡ true)))
  unfolding Watchdog.configure Conditioner.configure Servo.configure Observer.configure
      EnableBridge.configure StateBridge.configure RobotInfo.configure ControllerStatus.configure
  starts d typed =
      let watchdog =
        starts_lem d Watchdog.declarations _ (Watchdog.asked d) (Watchdog.configure_lem d typed) in
      let conditioner =
        starts_lem d Conditioner.declarations _ (Conditioner.asked d)
          (Conditioner.configure_lem d typed) in
      let servo = starts_lem d Servo.declarations _ (Servo.asked d) (Servo.configure_lem d typed) in
      let observer =
        starts_lem d Observer.declarations _ (Observer.asked d) (Observer.configure_lem d typed) in
      let enable_bridge =
        starts_lem d EnableBridge.declarations _ (EnableBridge.asked d)
          (EnableBridge.configure_lem d typed) in
      let state_bridge =
        starts_lem d StateBridge.declarations _ (StateBridge.asked d)
          (StateBridge.configure_lem d typed) in
      let robot_info =
        starts_lem d RobotInfo.declarations _ (RobotInfo.asked d)
          (RobotInfo.configure_lem d typed) in
      let controller_status =
        starts_lem d ControllerStatus.declarations _ (ControllerStatus.asked d)
          (ControllerStatus.configure_lem d typed) in
      let joint_state = mirror-starts d typed Mirror.joint_state_topics in
      let joint_torque = mirror-starts d typed Mirror.joint_torque_topics in
      let io_states = mirror-starts d typed Mirror.io_states_topics in
      let tool_data = mirror-starts d typed Mirror.tool_data_topics in
      (
        (
          watchdog,
          (
            conditioner,
            (
              servo,
              (
                observer,
                (
                  enable_bridge,
                  (
                    state_bridge,
                    (
                      robot_info,
                      (
                        controller_status,
                        (joint_state, (joint_torque, (io_states, (tool_data, tt)))),
                      ),
                    ),
                  ),
                ),
              ),
            ),
          ),
        ),
        publisher-starts d typed,
      )
