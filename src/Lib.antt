-- ===== src/Lib.antt =====
-- TelemetryHub: the logic of the frontend's pages and components and of the backend's own state, with
-- theorems about them and about how they work together. Paths are from the root of the repository.
--
-- The parts of the program, and where each is modelled:
--   frontend/src/lib/api.ts: Api. Types has its interfaces; Calls has one constructor for each exported
--     function and the type that it promises; Requests has what each function passes to `fetch`
--     (login_request for login, and so on); Replies has what becomes of the reply.
--   frontend/src/lib/auth-context.tsx: Session.Auth, with the steps of a session in
--     Session.Auth.Reachable. The forms that log in and register are Session.Login and
--     Session.Register (frontend/src/app/login/page.tsx and frontend/src/app/register/page.tsx); the home
--     page and the navigation bar are Session.Navigation.
--   frontend/src/lib/use-local-storage.ts: LocalStorage. The device page keeps its selection with it.
--   frontend/src/app/dashboard/page.tsx: Dashboard (state, groupedDevices, sortedGroups, what is shown),
--     Dashboard.Handlers (loadData, handleMoveGroup and the others). Moving an entry of a list, which the
--     settings do too, is Reorder.
--   frontend/src/components/device-group-section.tsx: DeviceSection.
--   frontend/src/components/field-selector.tsx: FieldSelector. How it and the other popovers open and
--     close is Popup; the options of time-range-selector.tsx are TimeRange.
--   frontend/src/components/date-time-picker.tsx: DateTimePicker.
--   frontend/src/app/dashboard/[deviceId]/page.tsx: DevicePage. State has the page's state and what is
--     derived from it, ChartGroups the memo chartGroups, Handlers the fetches, Chart the components
--     FieldChart and GroupChart with the options of the chart library.
--   frontend/src/components/device-settings-modal.tsx: Settings. Context is groupContext and the search,
--     Modal the device's handlers, Card is FieldConfigCard, GroupsTab and ExportTab are the tabs.
--   backend/internal/server/server.go and backend/internal/middleware/auth.go: Backend.Routes has the
--     routes, Backend.Access the middleware; Api.Requests.Served says which route answers which function
--     of api.ts.
--   backend/internal/auth/handler.go: Backend.Accounts.
--   backend/internal/server/store_adapter.go, with the handlers of backend/internal/handlers:
--     Backend.Devices (devices.go, device_groups.go) and, for renames.go, Backend.Renames (CreateRename,
--     DeleteRename) and Settings.GroupsTab.Server (UpdateRename, UpdateGroupConfig and
--     UpdateSubGroupConfig), to say what the calls of the pages store.
--   backend/internal/handlers/readings.go: Backend.Fields; the cache of
--     backend/internal/server/readings_cache.go, which GetReadings uses, is Backend.ReadingsCache.
--   backend/internal/mqtt: Backend.Message has handler.go and the message handler of client.go,
--     Backend.Dedup has dedup.go.
-- What a component renders is the function `view` of its child module View (Markup for the two pages and
-- the functions named section_view, card_view and so on), and what the use of a control does is `perform`
-- beside it.
-- The pages call the server through api.ts, use the session, and pass data and callbacks to the
-- components.
--
-- How code is rendered:
--   An event handler is a value of Handler.M: it reads and sets the state of its component, makes calls,
--   and leaves a log of effects. The environment says what the server answers, what other handlers do to
--   the state while a call is awaited, and whether the user agrees; a theorem holds for every
--   environment. A handler that reads React state reads the state of the render that made it, `seen`.
--   `Map` and `Set` are association lists and lists in the order of insertion (Js.Map), `sort` is a
--   stable insertion sort (Js.Sort), strings are lists of code points (Js.Text).
--   Markup is a list of the elements of Ui: the texts shown, the controls with their handlers and whether
--     they are disabled, and the child components with their props, in the order of the document. The
--     nesting of elements, classes, styles and icons are left out. A library's dialog, drawer or tab is
--     its content.
--   What is not the repository's is a parameter: the text of dates, the scale of the chart library,
--   localeCompare, toLowerCase, JSON, the quota of the storage, date-fns, and the server's replies, where
--   the theorem is not about the server too; for the backend, bcrypt, the JWT library, FNV-1a, the queries
--   that only read, and whether the database executes a statement.
--   Integers are unbounded, those of the frontend because it stays far below 2^53 with them. The only
--   fuel is that of Js.Text.decimal, 16 digits, enough for every number below 10^16; all other functions
--   recur on their data.
--
-- Not modelled: the components of frontend/src/components/ui, the dots that decorate the
-- forms; of the backend, the export, the manager of the brokers, the connections, the configuration and what is only SQL.
pub mod Common
pub mod Js
pub mod Api
pub mod Handler
pub mod Reorder
pub mod Dashboard
pub mod Popup
pub mod FieldSelector
pub mod DevicePage
pub mod Settings
pub mod Session
pub mod LocalStorage
pub mod TimeRange
pub mod DeviceSection
pub mod DateTimePicker
pub mod Ui
pub mod Backend
pub mod Tests
